-- ===== src/Conform.antt =====
-- pkg/controller/v1beta2/controller.go: `conform`, the reconciliation of one Habitat, by its key.
pub mod Frame
pub mod Server
pub mod Total
pub mod Safety
pub mod Reconciles
pub mod Steps
use habitat_operator.Base.{
  String, ◌<>◌, not, Option, none, some, Result, ok, err, pure, throw, panic, attempt, ◌>>=◌, ◌>>◌,
  if◌then◌else◌,
}
use habitat_operator.Types.{Habitat}
use habitat_operator.Kube.Objects.{StatefulSet, Labels}
use habitat_operator.Kube.Api.{Api, StoredStatefulSet}
use habitat_operator.Validate.{validate_custom_object}
use habitat_operator.Workload.{Sts, new_stateful_set}
use habitat_operator.Peer.{handle_config_map}
use habitat_operator.State.{
  Act, State, Error, library, key_not_found, text, unknown_object, Found, failed, missing, found,
  Object, habitat, pod, stateful_set, config_map, event, eventf, normal, warning, try, check,
  record_event,
}

abbrev pub validation_failed : String
validation_failed = "ValidationFailed"

abbrev pub message_validation_failed : String
message_validation_failed = "Failed validating Habitat"

abbrev pub sts_created : String
sts_created = "StatefulSetCreated"

abbrev pub message_sts_created : String
message_sts_created = "Created StatefulSet"

abbrev pub sts_failed : String
sts_failed = "StatefulSetCreationFailed"

abbrev pub message_sts_failed : String
message_sts_failed = "Failed creating StatefulSet"

abbrev pub cm_failed : String
cm_failed = "ConfigMapCreationFailed"

abbrev pub message_cm_failed : String
message_cm_failed = "Failed creating ConfigMap"

-- `err.Error()`, as `%s` prints it. The errors that name an object of the cache are only logged.
abbrev pub error_message : (api : Api) → Error api.Failure → String
error_message api (library e) = api.describe e
error_message api (key_not_found k) = "could not find Object with key " <> (k <> " in the cache")
error_message api (text t) = t
error_message api (unknown_object o) = "unknown object type in Habitat cache"

module _ (api : Api) where
  -- `sts.Spec.Selector.MatchLabels`, which panics on a nil selector
  abbrev delete_selected : String → Option Labels → Act api (Unit {0})
  delete_selected namespace none = panic
  delete_selected namespace (some labels) = do
    r ← try api (api.delete_pods namespace (api.selector_from_set labels))
    check api r

  unfoldable pub delete_stateful_set_pods : StoredStatefulSet api.Template → Act api (Unit {0})
  delete_stateful_set_pods sts = delete_selected sts.namespace sts.match_labels

  -- The pods are deleted if the update has changed their template.
  kill_all_pods :
      StoredStatefulSet api.Template → StoredStatefulSet api.Template → Act api (Unit {0})
  kill_all_pods old_sts updated_sts =
      if not (api.deep_equal old_sts.template updated_sts.template)
      then delete_stateful_set_pods updated_sts
      else pure tt

  update_existing : Habitat → Sts api → Act api (Unit {0})
  unfolding kill_all_pods delete_stateful_set_pods
  update_existing h new_sts = do
    g ← try api (api.get_stateful_set h.meta.namespace new_sts.meta.name)
    old_sts ← check api g
    u ← try api (api.update_stateful_set h.meta.namespace new_sts)
    updated_sts ← check api u
    kill_all_pods old_sts updated_sts

  -- What follows the attempt to create the StatefulSet.
  pub created :
      Habitat → Sts api → Result api.Failure (StoredStatefulSet api.Template) → Act api (Unit {0})
  created h new_sts (ok _) = record_event api (event h.meta normal sts_created message_sts_created)
  created h new_sts (err e) = if api.is_already_exists e then update_existing h new_sts else (do
    record_event api (event h.meta warning sts_failed message_sts_failed)
    throw (library e))

  -- What follows `handleConfigMap`.
  peers_handled : Habitat → Result (Error api.Failure) (Unit {0}) → Act api (Unit {0})
  peers_handled h (ok _) = pure tt
  peers_handled h (err e) = do
    record_event api
        (eventf h.meta warning cm_failed (message_cm_failed <> (": " <> error_message api e)))
    throw e

  -- What follows `newStatefulSet`.
  built : Habitat → Result (Error api.Failure) (Sts api) → Act api (Unit {0})
  built h (err e) = do
    record_event api
        (eventf h.meta warning sts_failed (message_sts_failed <> (": " <> error_message api e)))
    throw e
  built h (ok new_sts) = do
    c ← try api (api.create_stateful_set h.meta.namespace new_sts)
    created h new_sts c
    r ← attempt (handle_config_map api h)
    peers_handled h r

  -- What follows the validation.
  validated : Habitat → Result String (Unit {0}) → Act api (Unit {0})
  validated h (err e) = do
    record_event api (event h.meta warning validation_failed message_validation_failed)
    throw (text e)
  validated h (ok _) = do r ← attempt (new_stateful_set api h); built h r

  conform_object : Found api.Failure → Act api (Unit {0})
  conform_object (failed e) = throw (library e)
  -- The Habitat was deleted.
  conform_object missing = pure tt
  conform_object (found (habitat h)) = validated h (validate_custom_object h)
  conform_object (found _) = throw (text "unknown event type")

  unfoldable pub conform : String → Act api (Unit {0})
  unfolding conform_object validated built created update_existing peers_handled
  conform key s = conform_object (s.habitats key) s
