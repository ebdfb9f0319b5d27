-- ===== src/Workload/Flags.antt =====
-- The arguments of a built StatefulSet's container, as the settings of its service.
use mathlib.Core.List.{append-nil}
use habitat_operator.Base.{
  String, eq_iff, ◌≢◌, ◌⊎◌, subst, Option, none, some, List, [], ◌∷◌, ◌++◌, ◌≡◌, refl, sym, ◌∙◌, ap,
  inl, inr, returns, arith, false,
}
use habitat_operator.Types.{
  Habitat, V1beta2, PersistentStorage, topology_standalone, topology_leader,
}
use habitat_operator.Kube.Objects.{StatefulSet, Container, VolumeMount, PodSpec}
use habitat_operator.Kube.Api.{Api}
use habitat_operator.State.{State}
use habitat_operator.Ring.{find_string_submatch}
use habitat_operator.Ring.Language.{IsRing, find_string_submatch_iff, find_string_submatch_cases}
use habitat_operator.Validate.Laws.{IsValidSpec}
use habitat_operator.Workload.Args.{effective_topology, hab_args}
use habitat_operator.Workload.Parts.{
  base_stateful_set, mount_config_secret, mount_files_secret, mount_storage, claim_storage,
  mount_ring, at_first, habitat_container,
}
use habitat_operator.Workload.Assembly.{
  Needs, RingNames, Fetched, config_part, files_part, storage_part, ring_part, assemble,
  new_stateful_set_returns,
}
use habitat_operator.Workload.{Sts, new_stateful_set}
use habitat_operator.Workload.Reading.{
  read_flags, write_flags, read-write, optional, flags, hab_args-eq, Reads, flags-Reads,
}

-- A pod whose one container has these arguments.
record RunsWith (args : List String) (p : PodSpec) : Type 0 where
  container : Container
  alone : p.containers ≡ container ∷ []
  run : container.args ≡ args

abbrev Runs : {Q : Type 0} → List String → StatefulSet Q → Type 0
Runs args sts = RunsWith args sts.spec.template.spec

-- The ring's name, where a ring is asked for.
abbrev pub ring_name : (o : Option String) → RingNames o → Option String
ring_name none n = none
ring_name (some rsn) n = some n.1

module _ (Q : Type 0) (h : Habitat) (hs : V1beta2) where
  base-Runs : Runs (hab_args hs.service) (base_stateful_set {Q = Q} h hs)
  unfolding base_stateful_set
  base-Runs = record { container = habitat_container hs; alone = refl; run = refl }

  config-Runs :
      (args : List String) (o : Option String) (n : Needs o String) (sts : StatefulSet Q)
      → Runs args sts
      → Runs args (config_part hs o n sts)
  unfolding mount_config_secret
  config-Runs args none n sts r = r
  config-Runs args (some _) n sts r = record {
    container = _;
    alone = ap (at_first _) r.alone;
    run = r.run;
  }

  files-Runs :
      (args : List String) (o : Option String) (n : Needs o String) (sts : StatefulSet Q)
      → Runs args sts
      → Runs args (files_part hs o n sts)
  unfolding mount_files_secret
  files-Runs args none n sts r = r
  files-Runs args (some _) n sts r = record {
    container = _;
    alone = ap (at_first _) r.alone;
    run = r.run;
  }

  storage-Runs :
      (args : List String) (o : Option PersistentStorage) (n : Needs o Q) (sts : StatefulSet Q)
      → Runs args sts
      → Runs args (storage_part h o n sts)
  unfolding claim_storage mount_storage
  storage-Runs args none n sts r = r
  storage-Runs args (some _) n sts r = record {
    container = _;
    alone = ap (at_first _) r.alone;
    run = r.run;
  }

  ring-Runs :
      (args : List String) (o : Option String) (n : RingNames o) (sts : StatefulSet Q)
      → Runs args sts
      → Runs (args ++ write_flags (optional "--ring" (ring_name o n))) (ring_part o n sts)
  unfolding mount_ring
  ring-Runs args none n sts r = record {
    container = r.container;
    alone = r.alone;
    run = r.run ∙ sym (append-nil args);
  }
  ring-Runs args (some rsn) n sts r =
      let m : VolumeMount = record {
        name = rsn;
        mount_path = "/hab/cache/keys";
        read_only = false;
      } in
      record {
        container = _;
        alone =
            ap
              (λ cs.
                at_first (λ c. record c { args = c.args ++ ("--ring" ∷ n.1 ∷ []) })
                  (at_first (λ c. record c { mounts = c.mounts ++ (m ∷ []) }) cs))
              r.alone;
        run = ap (λ l. l ++ ("--ring" ∷ n.1 ∷ [])) r.run;
      }

  assemble-Runs :
      (f : Fetched Q hs)
      → Runs
          (write_flags (flags hs.service (ring_name hs.service.ring_secret_name f.ring)))
          (assemble h hs f)
  unfolding assemble
  assemble-Runs f =
      let args = hab_args hs.service in
      let r0 = base-Runs in
      let r1 = config-Runs args hs.service.config_secret_name f.config _ r0 in
      let r2 = files-Runs args hs.service.files_secret_name f.files _ r1 in
      let r3 = storage-Runs args hs.persistent_storage f.storage _ r2 in
      let r4 = ring-Runs args hs.service.ring_secret_name f.ring _ r3 in
      record {
        container = r4.container;
        alone = r4.alone;
        run = r4.run ∙ hab_args-eq hs.service (ring_name hs.service.ring_secret_name f.ring);
      }

effective_topology_valid :
    (t : String) → (t ≡ topology_standalone) ⊎ (t ≡ topology_leader) → effective_topology t ≡ t
unfolding effective_topology
effective_topology_valid t v =
    ground (arith, eq_iff t topology_leader, eq_iff t topology_standalone)

-- A ring's name is what stands before the hyphen and the revision in its Secret's name.
abbrev pub IsRingName : Option String → Option String → Type 0
IsRingName none r = r ≡ none
IsRingName (some rsn) r = (g d : String) × (r ≡ some g) × IsRing rsn g d × (g ≢ "")

same_group :
    (rsn g whole group : String) (l rest : List String)
    → l ≡ rsn ∷ g ∷ []
    → l ≡ whole ∷ group ∷ rest
    → some group ≡ some g
same_group rsn g whole group l rest e f = cc

ring_name-IsRingName : (o : Option String) (n : RingNames o) → IsRingName o (ring_name o n)
ring_name-IsRingName none n = refl
ring_name-IsRingName (some rsn) (secret, group, rest, whole, e) =
    elim (find_string_submatch_cases rsn) [
      | inl z ↦ cc
      | inr (g, m) ↦
          let (ne, (d, r)) = (find_string_submatch_iff rsn g).0 m in
          (g, d, same_group rsn g whole group (find_string_submatch rsn) rest m e, r, ne)
    ]

-- The one container of a valid Habitat's StatefulSet has arguments that read as flags and values:
-- the group, the channel and the ring if they are given, the topology, the file with the peers,
-- and every bind in order, as its name, service and group, each exactly once, and no other flag.
-- The ring's name is the name of its Secret without the hyphen and the revision.
pub new_stateful_set-Reads :
    (api : Api) (h : Habitat) (hs : V1beta2) (s : State api) (sts : Sts api)
    → h.spec ≡ some hs
    → IsValidSpec hs
    → (new_stateful_set api h s).0 ≡ returns sts
    → (c : Container) × (fs : List (String × String)) × (ring : Option String)
      × (sts.spec.template.spec.containers ≡ c ∷ [])
      × (read_flags c.args ≡ some fs)
      × Reads hs.service hs.service.topology ring fs
      × IsRingName hs.service.ring_secret_name ring
new_stateful_set-Reads api h hs s sts spec v e =
    let (f, p) = new_stateful_set_returns api h hs s sts spec e in
    let r = assemble-Runs api.Quantity h hs f in
    let ring = ring_name hs.service.ring_secret_name f.ring in
    (
      r.container,
      flags hs.service ring,
      ring,
      ap (λ (t : Sts api). t.spec.template.spec.containers) p ∙ r.alone,
      ap read_flags r.run ∙ read-write (flags hs.service ring),
      subst (λ t. Reads hs.service t ring (flags hs.service ring))
          (effective_topology_valid hs.service.topology v.topology) (flags-Reads hs.service ring),
      ring_name-IsRingName hs.service.ring_secret_name f.ring,
    )
