-- ===== src/Tests/Workloads.antt =====
-- The theorems on StatefulSets, at a Habitat with every optional field.
use habitat_operator.Workload.Parts.{
  mount_ring, claim_storage, mount_storage, mount_files_secret, mount_config_secret,
  base_stateful_set,
}
use habitat_operator.Base.{
  String, true, Option, some, List, [], ◌∷◌, ◌≡◌, refl, returns, ok, Distinct,
}
use habitat_operator.Base.Int.{IsInt32, low32}
use habitat_operator.Kube.Objects.{Labels, Meta, Container}
use habitat_operator.Labels.{is_habitat_object, habitat_key_from_labeled_resource}
use habitat_operator.Workload.{Sts, new_stateful_set}
use habitat_operator.Workload.Assembly.{assemble}
use habitat_operator.Workload.Flags.{IsRingName, new_stateful_set-Reads}
use habitat_operator.Workload.Reading.{read_flags, Reads}
use habitat_operator.Ring.{find_string_submatch}
use habitat_operator.Workload.Mounts.{new_stateful_set-IsMounted}
use habitat_operator.Workload.Mounted.{IsMounted, mountable}
use habitat_operator.Workload.Names.{expected_names, new_stateful_set-Distinct}
use habitat_operator.Workload.Total.{new_stateful_set_total}
use habitat_operator.Workload.Owner.{Selects, new_stateful_set-key, new_stateful_set-replicas}
use habitat_operator.Tests.Cluster.{cluster, named}
use habitat_operator.Tests.Habitats.{
  spec, db, at, fresh, ring_secret, spec-IsValid, ring_secret_submatch,
}

abbrev pub built : Sts cluster
built = assemble db spec (record {
  config = "user-toml";
  files = "keys";
  storage = "1Gi";
  ring = (ring_secret, "crew", [], ring_secret, ring_secret_submatch);
})

pub built_returns : (new_stateful_set cluster db (at fresh)).0 ≡ returns built
unfolding new_stateful_set find_string_submatch assemble
built_returns = refl

new_stateful_set-IsMounted_example : IsMounted (mountable built) built.spec.template.spec
new_stateful_set-IsMounted_example =
    new_stateful_set-IsMounted cluster db spec (at fresh) built refl built_returns

new_stateful_set-Distinct_example :
    (mountable built ≡ expected_names spec) × Distinct (mountable built)
new_stateful_set-Distinct_example =
    new_stateful_set-Distinct cluster db spec (at fresh) built refl spec-IsValid built_returns

new_stateful_set-Reads_example :
    (c : Container) × (fs : List (String × String)) × (ring : Option String)
    × (built.spec.template.spec.containers ≡ c ∷ [])
    × (read_flags c.args ≡ some fs)
    × Reads spec.service "leader" ring fs
    × IsRingName (some ring_secret) ring
new_stateful_set-Reads_example =
    new_stateful_set-Reads cluster db spec (at fresh) built refl spec-IsValid built_returns

new_stateful_set_total_example :
    (sts : Sts cluster) × ((new_stateful_set cluster db (at fresh)).0 ≡ returns sts)
new_stateful_set_total_example =
    new_stateful_set_total cluster db spec (at fresh) refl spec-IsValid
      (λ w. (named "lab" "user-toml", refl)) (λ w. (named "lab" "keys", refl)) ("1Gi", refl)
      (λ w. (named "default" ring_secret, refl))

new_stateful_set-replicas_example : IsInt32 built.spec.replicas × (low32 built.spec.replicas ≡ 3)
new_stateful_set-replicas_example =
    new_stateful_set-replicas cluster db spec (at fresh) built refl built_returns

abbrev pub pod_labels : Labels
pod_labels =
    ("controller-revision-hash", "db-1")
    ∷ ("statefulset.kubernetes.io/pod-name", "db-0")
    ∷ built.spec.template.labels

pub pod_labels-Selects : Selects built.spec.template.labels pod_labels
unfolding assemble mount_ring claim_storage mount_storage mount_files_secret mount_config_secret
    base_stateful_set
pod_labels-Selects = (refl, (refl, (refl, (refl, tt))))

abbrev pod : Meta
pod = record (named "lab" "db-0") { labels = pod_labels }

new_stateful_set-key_example :
    (is_habitat_object pod ≡ true)
    × Selects built.spec.selector pod.labels
    × ((key : String) × (habitat_key_from_labeled_resource pod ≡ ok key)
        × (cluster.meta_key db.meta ≡ ok key))
new_stateful_set-key_example =
    new_stateful_set-key cluster db spec (at fresh) built pod (λ m _. refl) refl (λ e. cc) (λ e. cc)
      built_returns pod_labels-Selects refl
