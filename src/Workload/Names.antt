-- ===== src/Workload/Names.antt =====
-- The names of the volumes of a built StatefulSet, and of its claims.
use mathlib.Core.List.{map-append, append-nil, append_assoc}
use habitat_operator.Base.{
  ◌<◌, ◌≤◌, String, Option, none, some, List, [], ◌∷◌, ◌++◌, ◌≡◌, ◌≢◌, refl, sym, ◌∙◌, ap, inl, inr,
  Among, Distinct, returns, subst, arith, All,
}
use habitat_operator.Types.{Habitat, V1beta2, PersistentStorage}
use habitat_operator.Kube.Objects.{StatefulSet, VolumeClaim}
use habitat_operator.Kube.Api.{Api}
use habitat_operator.State.{State}
use habitat_operator.Ring.Language.{length as text_length, length-IsRing}
use habitat_operator.Validate.Laws.{HasRing, IsValidSpec}
use habitat_operator.Workload.Parts.{
  base_stateful_set, mount_config_secret, mount_files_secret, mount_storage, claim_storage,
  mount_ring,
}
use habitat_operator.Workload.Assembly.{
  Needs, RingNames, Fetched, config_part, files_part, storage_part, ring_part, assemble,
  new_stateful_set_returns,
}
use habitat_operator.Workload.Mounts.{ring_claims}
use habitat_operator.Workload.Mounted.{volume_names, claim_names, mountable}
use habitat_operator.Workload.{Sts, new_stateful_set}

-- What an optional field of the specification adds.
abbrev pub asked {ℓ} : {A : Type ℓ} → Option A → List String → List String
asked none names = []
asked (some _) names = names

abbrev pub the : Option String → List String
the none = []
the (some name) = name ∷ []

-- The names in order: the volumes, and then the claims.
abbrev pub expected_names : V1beta2 → List String
expected_names hs =
    "config"
    ∷ (asked hs.service.config_secret_name ("user-config" ∷ [])
        ++ (asked hs.service.files_secret_name ("files-secrets" ∷ "files" ∷ [])
            ++ (the hs.service.ring_secret_name
                ++ asked hs.persistent_storage ("persistent" ∷ []))))

abbrev claims_of : {Q : Type 0} → StatefulSet Q → List (VolumeClaim Q)
claims_of sts = sts.spec.volume_claim_templates

module _ (Q : Type 0) (h : Habitat) (hs : V1beta2) where
  config_volumes :
      (o : Option String) (n : Needs o String) (sts : StatefulSet Q)
      → volume_names (config_part hs o n sts).spec.template.spec.volumes
        ≡ volume_names sts.spec.template.spec.volumes ++ asked o ("user-config" ∷ [])
  unfolding mount_config_secret
  config_volumes none n sts = sym (append-nil _)
  config_volumes (some _) n sts = rw map-append

  files_volumes :
      (o : Option String) (n : Needs o String) (sts : StatefulSet Q)
      → volume_names (files_part hs o n sts).spec.template.spec.volumes
        ≡ volume_names sts.spec.template.spec.volumes ++ asked o ("files-secrets" ∷ "files" ∷ [])
  unfolding mount_files_secret
  files_volumes none n sts = sym (append-nil _)
  files_volumes (some _) n sts = simp (map-append, append_assoc)

  storage_volumes :
      (o : Option PersistentStorage) (n : Needs o Q) (sts : StatefulSet Q)
      → (volume_names (storage_part h o n sts).spec.template.spec.volumes
          ≡ volume_names sts.spec.template.spec.volumes)
  unfolding claim_storage mount_storage
  storage_volumes none n sts = refl
  storage_volumes (some ps) n sts = refl

  storage_claim_names :
      (o : Option PersistentStorage) (n : Needs o Q) (sts : StatefulSet Q)
      → sts.spec.volume_claim_templates ≡ []
      → claim_names (storage_part h o n sts).spec.volume_claim_templates
        ≡ asked o ("persistent" ∷ [])
  unfolding claim_storage
  storage_claim_names none n sts e = ap claim_names e
  storage_claim_names (some ps) n sts e = refl

  ring_volumes :
      (o : Option String) (n : RingNames o) (sts : StatefulSet Q)
      → volume_names (ring_part o n sts).spec.template.spec.volumes
        ≡ volume_names sts.spec.template.spec.volumes ++ the o
  unfolding mount_ring
  ring_volumes none n sts = sym (append-nil _)
  ring_volumes (some rsn) n sts = rw map-append

  no_claims :
      (c f : Option String) (n : Needs c String) (m : Needs f String)
      → claims_of (files_part {Q = Q} hs f m (config_part hs c n (base_stateful_set h hs))) ≡ []
  unfolding mount_files_secret mount_config_secret base_stateful_set
  no_claims none none n m = refl
  no_claims none (some _) n m = refl
  no_claims (some _) none n m = refl
  no_claims (some _) (some _) n m = refl

  base_volumes :
      volume_names (base_stateful_set {Q = Q} h hs).spec.template.spec.volumes ≡ "config" ∷ []
  unfolding base_stateful_set
  base_volumes = refl

  assemble_names : (f : Fetched Q hs) → mountable (assemble h hs f) ≡ expected_names hs
  unfolding assemble
  assemble_names f =
      let base = base_stateful_set {Q = Q} h hs in
      let a = config_part hs hs.service.config_secret_name f.config base in
      let b = files_part hs hs.service.files_secret_name f.files a in
      let c = storage_part h hs.persistent_storage f.storage b in
      let d = ring_part hs.service.ring_secret_name f.ring c in
      ap (λ vs. vs ++ claim_names (claims_of d))
        (ring_volumes hs.service.ring_secret_name f.ring c
          ∙ ap (λ vs. vs ++ the hs.service.ring_secret_name)
              (storage_volumes hs.persistent_storage f.storage b
                ∙ files_volumes hs.service.files_secret_name f.files a
                ∙ ap
                    (λ vs.
                      vs ++ asked hs.service.files_secret_name ("files-secrets" ∷ "files" ∷ []))
                    (config_volumes hs.service.config_secret_name f.config base
                      ∙ ap (λ vs. vs ++ asked hs.service.config_secret_name ("user-config" ∷ []))
                          base_volumes)))
      ∙ ap
          (λ vs.
            ((("config" ∷ [] ++ asked hs.service.config_secret_name ("user-config" ∷ []))
                ++ asked hs.service.files_secret_name ("files-secrets" ∷ "files" ∷ []))
              ++ the hs.service.ring_secret_name)
            ++ vs)
          (ap claim_names (ring_claims h hs hs.service.ring_secret_name f.ring c)
            ∙ storage_claim_names hs.persistent_storage f.storage b (
                no_claims hs.service.config_secret_name hs.service.files_secret_name f.config
                  f.files))
      ∙ simp append_assoc

-- Texts of different lengths differ.
abbrev DifferentLengths : List String → Type 0
DifferentLengths [] = Unit
DifferentLengths (x ∷ xs) = All (λ y. text_length x ≢ text_length y) xs × DifferentLengths xs

not-Among_of_lengths :
    (x : String) (xs : List String) → All (λ y. text_length x ≢ text_length y) xs → ¬ Among x xs
not-Among_of_lengths x [] d m = elim m [ ]
not-Among_of_lengths x (y ∷ ys) d (inl e) = d.0 (ap text_length e)
not-Among_of_lengths x (y ∷ ys) d (inr m) = not-Among_of_lengths x ys d.1 m

Distinct-of_lengths : (xs : List String) → DifferentLengths xs → Distinct xs
Distinct-of_lengths [] d = tt
Distinct-of_lengths (x ∷ xs) d = (not-Among_of_lengths x xs d.0, Distinct-of_lengths xs d.1)

-- A ring secret's name is longer than the other names.
abbrev IsLong : Option String → Type 0
IsLong none = Unit
IsLong (some rsn) = 16 ≤ text_length rsn

nonempty_length : (g : String) → g ≢ "" → 0 < text_length g
nonempty_length String.[] ne = absurd (ne refl)
nonempty_length (String.◌∷◌ c g) ne = omega arith

HasRing-IsLong : (r : Option String) → HasRing r → IsLong r
HasRing-IsLong none _ = tt
HasRing-IsLong (some rsn) (g, d, r, ne) =
    omega (arith, length-IsRing rsn g d r, nonempty_length g ne)

parts-DifferentLengths :
    (c f r : Option String) (p : Option PersistentStorage)
    → IsLong r
    → DifferentLengths (
        "config"
        ∷ (asked c ("user-config" ∷ [])
            ++ (asked f ("files-secrets" ∷ "files" ∷ [])
                ++ (the r ++ asked p ("persistent" ∷ [])))))
parts-DifferentLengths none none none none l = omega arith
parts-DifferentLengths none none none (some _) l = omega arith
parts-DifferentLengths none none (some _) none l = omega arith
parts-DifferentLengths none none (some _) (some _) l = omega arith
parts-DifferentLengths none (some _) none none l = omega arith
parts-DifferentLengths none (some _) none (some _) l = omega arith
parts-DifferentLengths none (some _) (some _) none l = omega arith
parts-DifferentLengths none (some _) (some _) (some _) l = omega arith
parts-DifferentLengths (some _) none none none l = omega arith
parts-DifferentLengths (some _) none none (some _) l = omega arith
parts-DifferentLengths (some _) none (some _) none l = omega arith
parts-DifferentLengths (some _) none (some _) (some _) l = omega arith
parts-DifferentLengths (some _) (some _) none none l = omega arith
parts-DifferentLengths (some _) (some _) none (some _) l = omega arith
parts-DifferentLengths (some _) (some _) (some _) none l = omega arith
parts-DifferentLengths (some _) (some _) (some _) (some _) l = omega arith

-- The volumes and claims of a valid Habitat's StatefulSet are exactly the configuration of peers,
-- then what the specification asks for (user configuration, files, ring key, storage), and no two
-- have one name, whatever the ring's Secret is called.
pub new_stateful_set-Distinct :
    (api : Api) (h : Habitat) (hs : V1beta2) (s : State api) (sts : Sts api)
    → h.spec ≡ some hs
    → IsValidSpec hs
    → (new_stateful_set api h s).0 ≡ returns sts
    → (mountable sts ≡ expected_names hs) × Distinct (mountable sts)
new_stateful_set-Distinct api h hs s sts spec v e =
    let (f, p) = new_stateful_set_returns api h hs s sts spec e in
    let names = ap (λ (t : Sts api). mountable t) p ∙ assemble_names api.Quantity h hs f in
    (
      names,
      subst Distinct (sym names) (
          Distinct-of_lengths (expected_names hs) (
            parts-DifferentLengths hs.service.config_secret_name hs.service.files_secret_name
              hs.service.ring_secret_name hs.persistent_storage (HasRing-IsLong _ v.ring))),
    )
