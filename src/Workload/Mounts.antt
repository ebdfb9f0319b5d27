-- ===== src/Workload/Mounts.antt =====
-- The mounts of a built StatefulSet, and its volumes.
use habitat_operator.Base.{
  String, Option, none, some, List, [], ◌∷◌, ◌++◌, ◌≡◌, refl, sym, inl, All-append, Among,
  Among-append_right, returns, subst,
}
use habitat_operator.Types.{Habitat, V1beta2, PersistentStorage}
use habitat_operator.Kube.Objects.{StatefulSet}
use habitat_operator.Kube.Api.{Api}
use habitat_operator.State.{State}
use habitat_operator.Workload.Parts.{
  base_stateful_set, mount_config_secret, mount_files_secret, mount_storage, claim_storage,
  mount_ring, copy_files,
}
use habitat_operator.Workload.Assembly.{
  Needs, RingNames, Fetched, config_part, files_part, storage_part, ring_part, assemble,
  new_stateful_set_returns,
}
use habitat_operator.Workload.{Sts, new_stateful_set}
use habitat_operator.Workload.Mounted.{
  volume_names, claim_names, mountable, IsMounted, AllMounted-at_first, AllMounted-args,
  more_volumes, last_volume, IsMounted-of_more, IsMountedWith,
}

module _ (Q : Type 0) (h : Habitat) (hs : V1beta2) (claims : List String) where
  base-IsMounted : IsMountedWith claims (base_stateful_set {Q = Q} h hs)
  unfolding base_stateful_set
  base-IsMounted = record { containers = ((inl refl, tt), tt); init_containers = tt }

  config-IsMounted :
      (o : Option String) (n : Needs o String) (sts : StatefulSet Q)
      → IsMountedWith claims sts
      → IsMountedWith claims (config_part hs o n sts)
  unfolding mount_config_secret
  config-IsMounted none n sts v = v
  config-IsMounted (some _) secret sts v =
      let p = sts.spec.template.spec in
      let w = IsMounted-of_more _ _ (more_volumes p.volumes _ claims) p v in
      record {
        containers =
            AllMounted-at_first _ _ p.containers (last_volume p.volumes _ [] claims) w.containers;
        init_containers = w.init_containers;
      }

  files-IsMounted :
      (o : Option String) (n : Needs o String) (sts : StatefulSet Q)
      → IsMountedWith claims sts
      → IsMountedWith claims (files_part hs o n sts)
  unfolding mount_files_secret
  files-IsMounted none n sts v = v
  files-IsMounted (some _) files sts v =
      let p = sts.spec.template.spec in
      let w = IsMounted-of_more _ _ (more_volumes p.volumes _ claims) p v in
      let u = IsMounted-of_more _ _ (more_volumes (p.volumes ++ (_ ∷ [])) _ claims) p w in
      record {
        containers =
            AllMounted-at_first _ _ p.containers (last_volume (p.volumes ++ (_ ∷ [])) _ [] claims)
              u.containers;
        init_containers = All-append _ p.init_containers (copy_files hs ∷ []) u.init_containers (
          (
            more_volumes (p.volumes ++ (_ ∷ [])) _ claims _ (last_volume p.volumes _ [] claims),
            (last_volume (p.volumes ++ (_ ∷ [])) _ [] claims, tt),
          ),
          tt,
        );
      }

  storage-IsMounted :
      (o : Option PersistentStorage) (n : Needs o Q) (sts : StatefulSet Q)
      → Needs o (Among "persistent" claims)
      → IsMountedWith claims sts
      → IsMountedWith claims (storage_part h o n sts)
  unfolding claim_storage mount_storage
  storage-IsMounted none n sts a v = v
  storage-IsMounted (some ps) q sts a v =
      let p = sts.spec.template.spec in
      record {
        containers =
            AllMounted-at_first _ _ p.containers
              (Among-append_right _ (volume_names p.volumes) claims a) v.containers;
        init_containers = v.init_containers;
      }

  ring-IsMounted :
      (o : Option String) (n : RingNames o) (sts : StatefulSet Q)
      → IsMountedWith claims sts
      → IsMountedWith claims (ring_part o n sts)
  unfolding mount_ring
  ring-IsMounted none n sts v = v
  ring-IsMounted (some rsn) n sts v =
      let p = sts.spec.template.spec in
      let w = IsMounted-of_more _ _ (more_volumes p.volumes _ claims) p v in
      record {
        containers =
            AllMounted-args _ ("--ring" ∷ n.1 ∷ []) _ (
              AllMounted-at_first _ _ p.containers (last_volume p.volumes _ [] claims)
                w.containers);
        init_containers = w.init_containers;
      }

module _ {Q : Type 0} (h : Habitat) (hs : V1beta2) where
  storage_claims :
      (o : Option PersistentStorage) (n : Needs o Q) (sts : StatefulSet Q)
      → Needs o
          (Among "persistent" (claim_names (storage_part h o n sts).spec.volume_claim_templates))
  unfolding claim_storage
  storage_claims none n sts = tt
  storage_claims (some ps) q sts = inl refl

  pub ring_claims :
      (o : Option String) (n : RingNames o) (sts : StatefulSet Q)
      → (ring_part o n sts).spec.volume_claim_templates ≡ sts.spec.volume_claim_templates
  unfolding mount_ring
  ring_claims none n sts = refl
  ring_claims (some rsn) n sts = refl

  assemble-IsMounted :
      (f : Fetched Q hs)
      → IsMounted (mountable (assemble h hs f)) (assemble h hs f).spec.template.spec
  unfolding assemble
  assemble-IsMounted f =
      let base = base_stateful_set {Q = Q} h hs in
      let a = config_part hs hs.service.config_secret_name f.config base in
      let b = files_part hs hs.service.files_secret_name f.files a in
      let c = storage_part h hs.persistent_storage f.storage b in
      let d = ring_part hs.service.ring_secret_name f.ring c in
      let claims = claim_names c.spec.volume_claim_templates in
      let v0 = base-IsMounted Q h hs claims in
      let v1 = config-IsMounted Q h hs claims hs.service.config_secret_name f.config base v0 in
      let v2 = files-IsMounted Q h hs claims hs.service.files_secret_name f.files a v1 in
      let v3 =
        storage-IsMounted Q h hs claims hs.persistent_storage f.storage b
          (storage_claims hs.persistent_storage f.storage b) v2 in
      subst
        (λ l.
          IsMounted (volume_names d.spec.template.spec.volumes ++ claim_names l)
            d.spec.template.spec)
        (sym (ring_claims hs.service.ring_secret_name f.ring c))
        (ring-IsMounted Q h hs claims hs.service.ring_secret_name f.ring c v3)

-- Every mount of a returned StatefulSet, of its container as of the one that copies files, is of a
-- volume of the pod or of a claim of the StatefulSet.
pub new_stateful_set-IsMounted :
    (api : Api) (h : Habitat) (hs : V1beta2) (s : State api) (sts : Sts api)
    → h.spec ≡ some hs
    → (new_stateful_set api h s).0 ≡ returns sts
    → IsMounted (mountable sts) sts.spec.template.spec
new_stateful_set-IsMounted api h hs s sts spec e =
    let (f, p) = new_stateful_set_returns api h hs s sts spec e in
    subst (λ (t : Sts api). IsMounted (mountable t) t.spec.template.spec) (sym p)
      (assemble-IsMounted h hs f)
