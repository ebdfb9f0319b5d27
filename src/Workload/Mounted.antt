-- ===== src/Workload/Mounted.antt =====
-- Mounts that have their volumes.
use habitat_operator.Base.{
  String, List, [], ◌∷◌, ◌++◌, map, refl, inl, inr, All, All-append, All-map, Among,
  Among-append_right,
}
use habitat_operator.Kube.Objects.{
  StatefulSet, Container, PodSpec, VolumeMount, Volume, VolumeClaim,
}
use habitat_operator.Workload.Parts.{at_first}

abbrev pub volume_names : List Volume → List String
volume_names = map (λ v. v.name)

abbrev pub claim_names : {Q : Type 0} → List (VolumeClaim Q) → List String
claim_names = map (λ c. c.name)

-- The names that a pod's mounts may use: its volumes, and the claims of the StatefulSet.
abbrev pub mountable : {Q : Type 0} → StatefulSet Q → List String
mountable sts =
    volume_names sts.spec.template.spec.volumes ++ claim_names sts.spec.volume_claim_templates

-- Every mount of the containers uses one of the names.
abbrev pub AllMounted : List String → List Container → Type 0
AllMounted names = All (λ c. All (λ m. Among m.name names) c.mounts)

pub record IsMounted (names : List String) (p : PodSpec) : Type 0 where
  pub containers : AllMounted names p.containers
  pub init_containers : AllMounted names p.init_containers

-- More names, in places that keep the old ones.
AllMounted-of_more :
    (xs ys : List String)
    → ((x : String) → Among x xs → Among x ys)
    → (cs : List Container) → AllMounted xs cs
    → AllMounted ys cs
AllMounted-of_more xs ys more cs = All-map _ _ (λ c. All-map _ _ (λ m. more m.name) c.mounts) cs

pub AllMounted-at_first :
    (names : List String) (m : VolumeMount) (cs : List Container)
    → Among m.name names
    → AllMounted names cs
    → AllMounted names (at_first (λ c. record c { mounts = c.mounts ++ (m ∷ []) }) cs)
AllMounted-at_first names m [] a h = tt
AllMounted-at_first names m (c ∷ cs) a h = (All-append _ c.mounts (m ∷ []) h.0 (a, tt), h.1)

pub AllMounted-args :
    (names xs : List String) (cs : List Container)
    → AllMounted names cs
    → AllMounted names (at_first (λ c. record c { args = c.args ++ xs }) cs)
AllMounted-args names xs [] h = tt
AllMounted-args names xs (c ∷ cs) h = h

-- Names from a longer list of volumes, the claims the same.
pub more_volumes :
    (vs : List Volume) (us : List Volume) (cs : List String) (x : String)
    → Among x (volume_names vs ++ cs)
    → Among x (volume_names (vs ++ us) ++ cs)
more_volumes [] us cs x m = Among-append_right x (volume_names us) cs m
more_volumes (v ∷ vs) us cs x (inl e) = inl e
more_volumes (v ∷ vs) us cs x (inr m) = inr (more_volumes vs us cs x m)

pub last_volume :
    (vs : List Volume) (v : Volume) (us : List Volume) (cs : List String)
    → Among v.name (volume_names (vs ++ (v ∷ us)) ++ cs)
last_volume [] v us cs = inl refl
last_volume (w ∷ vs) v us cs = inr (last_volume vs v us cs)

pub IsMounted-of_more :
    (xs ys : List String)
    → ((x : String) → Among x xs → Among x ys)
    → (p : PodSpec) → IsMounted xs p
    → IsMounted ys p
IsMounted-of_more xs ys more p v = record {
  containers = AllMounted-of_more xs ys more p.containers v.containers;
  init_containers = AllMounted-of_more xs ys more p.init_containers v.init_containers;
}

-- The names of a pod's volumes, with those of the claims that the StatefulSet ends up with.
abbrev names_of : List String → PodSpec → List String
names_of claims p = volume_names p.volumes ++ claims

-- A pod whose mounts have their volumes, given the claims.
abbrev pub IsMountedWith : {Q : Type 0} → List String → StatefulSet Q → Type 0
IsMountedWith claims sts = IsMounted (names_of claims sts.spec.template.spec) sts.spec.template.spec
