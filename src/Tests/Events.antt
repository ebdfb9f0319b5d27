-- ===== src/Tests/Events.antt =====
-- The theorems on the handlers and on the work queue, at one Habitat.
use habitat_operator.Base.{String, List, Among, ◌↔◌, some, none, [], ◌∷◌, ◌++◌, ◌≡◌, refl}
use mathlib.Core.Logic.{ite}
use habitat_operator.Kube.Objects.{Pod, ConfigMap}
use habitat_operator.Types.{Habitat}
use habitat_operator.Types.Equality.{spec_discrete}
use habitat_operator.State.{State, habitat, pod, config_map}
use habitat_operator.Conform.{conform}
use habitat_operator.Handlers.{
  handle_hab_update, handle_pod_add, handle_cm_add, handle_cm_update, handle_cm_delete,
}
use habitat_operator.Handlers.Adds.{pod_deleted, Known, handle, handle-AddsEligible}
use habitat_operator.Handlers.Eligible.{Adds, AddsEligible}
use habitat_operator.Handlers.Wakes.{handle_pod_add-Adds, handle_hab_update-Adds}
use habitat_operator.Handlers.Broadcast.{AnyConcerned, handle_cm-Adds}
use habitat_operator.Worker.{key, process_next_item}
use habitat_operator.Worker.Laws.{answers, goes_on, process_next_item-answers}
use habitat_operator.Tests.Cluster.{cluster, named}
use habitat_operator.Tests.Habitats.{spec, db, at, fresh}
use habitat_operator.Tests.Workloads.{built, pod_labels, pod_labels-Selects, built_returns}

abbrev s : State cluster
s = at fresh

abbrev db_pod : Pod
db_pod = record {
  meta = record (named "lab" "db-0") { labels = pod_labels };
  phase = "Pending";
  pod_ip = "";
}

handle_pod_add-Adds_example : Adds cluster s ("lab/db" ∷ []) (handle_pod_add cluster (pod db_pod) s)
handle_pod_add-Adds_example =
    handle_pod_add-Adds cluster db spec s s built db_pod "lab/db" (λ m _. refl) refl (λ e. cc)
      (λ e. cc) built_returns pod_labels-Selects refl refl refl refl

handle-AddsEligible_example :
    AddsEligible cluster
      (Known cluster (habitat db ∷ []) (pod_deleted (pod db_pod)) s)
      s
      (handle cluster (habitat db ∷ []) (pod_deleted (pod db_pod)) s)
handle-AddsEligible_example =
    handle-AddsEligible cluster (habitat db ∷ []) (pod_deleted (pod db_pod)) s

abbrev resized : Habitat
resized = record db { spec = some (record spec { image = "habitat/valkey" }) }

handle_hab_update-Adds_example :
    Adds cluster s
      (ite (spec_discrete db.spec resized.spec) [] ("lab/db" ∷ []))
      (handle_hab_update cluster (habitat db) (habitat resized) s)
handle_hab_update-Adds_example = handle_hab_update-Adds cluster db resized "lab/db" s (refl, refl)

abbrev peers : ConfigMap
peers = record { meta = named "lab" "peer-watch-file"; contents = none }

handle_cm-Adds_example :
    (keys : List String) × ((k : String)
      → Among k keys ↔ AnyConcerned cluster "lab" (habitat db ∷ []) k)
    × Adds cluster s keys (handle_cm_add cluster (habitat db ∷ []) (config_map peers) s)
    × Adds cluster s keys
        (handle_cm_update cluster (habitat db ∷ []) (pod db_pod) (config_map peers) s)
    × Adds cluster s keys (handle_cm_delete cluster (habitat db ∷ []) (config_map peers) s)
handle_cm-Adds_example = handle_cm-Adds cluster (habitat db ∷ []) peers (pod db_pod) s

process_next_item-answers_example :
    ((process_next_item cluster (key "lab/db") s).0 ≡ goes_on (conform cluster "lab/db" s).0)
    × ((process_next_item cluster (key "lab/db") s).1 ≡ record ((conform cluster "lab/db" s).1) {
      queue = s.queue ++ answers "lab/db" (conform cluster "lab/db" s).0;
    })
    × ((conform cluster "lab/db" s).1.habitats ≡ s.habitats)
process_next_item-answers_example = process_next_item-answers cluster "lab/db" s
