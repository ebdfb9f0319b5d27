-- ===== src/Handlers.antt =====
-- pkg/controller/v1beta2/controller.go and stateful_sets.go: the handlers of the informers' events,
-- and `enqueue`, which decides whether a Habitat is for this controller. Logging is left out.
pub mod Eligible
pub mod Adds
pub mod Wakes
pub mod Broadcast
use mathlib.Core.Logic.{ite}
use habitat_operator.Base.{
  String, ◌==◌, Bool, true, false, List, [], ◌∷◌, Result, ok, err, fails, pure, throw, attempt,
  ◌>>=◌, ◌>>◌, if◌then◌else◌,
}
use habitat_operator.Types.{Habitat}
use habitat_operator.Types.Equality.{spec_discrete}
use habitat_operator.Kube.Objects.{Meta, Pod}
use habitat_operator.Kube.Api.{Api}
use habitat_operator.Labels.{habitat_key_from_labeled_resource, is_habitat_object}
use habitat_operator.Validate.{check_custom_version_match}
use habitat_operator.State.{
  Act, Error, library, key_not_found, text, unknown_object, Found, failed, missing, found, Object,
  habitat, pod, stateful_set, config_map, add, queue_call,
}

unfoldable pub habitat_needs_update : Habitat → Habitat → Bool
habitat_needs_update old_habitat new_habitat =
    ite (spec_discrete old_habitat.spec new_habitat.spec) false true

unfoldable pub pod_needs_update : Pod → Pod → Bool
pod_needs_update old_pod new_pod =
    if old_pod.meta.resource_version == new_pod.meta.resource_version
    then false
    else if old_pod.phase == new_pod.phase
    then false
    else true

module _ (api : Api) where
  abbrev enqueue_key : Result api.Failure String → Act api (Unit {0})
  enqueue_key (err e) = pure tt
  enqueue_key (ok k) = queue_call api (add k)

  -- `hc.enqueue(h)`, for a pointer that is not nil, as every caller's is.
  abbrev enqueue_checked : Habitat → Result String (Unit {0}) → Act api (Unit {0})
  enqueue_checked hab (err e) = pure tt
  enqueue_checked hab (ok _) = enqueue_key (api.meta_key hab.meta)

  unfoldable pub enqueue : Habitat → Act api (Unit {0})
  enqueue hab = enqueue_checked hab (check_custom_version_match hab.custom_version)

  abbrev habitat_at : String → Found api.Failure → Act api Habitat
  habitat_at key (failed e) = throw (library e)
  habitat_at key missing = throw (key_not_found key)
  habitat_at key (found (habitat h)) = pure h
  habitat_at key (found o) = throw (unknown_object o)

  abbrev at_key : Result String String → Act api Habitat
  at_key (err e) s = (fails (text e), s)
  at_key (ok key) s = habitat_at key (s.habitats key) s

  unfoldable pub get_habitat_from_labeled_resource : Meta → Act api Habitat
  get_habitat_from_labeled_resource r = at_key (habitat_key_from_labeled_resource r)

  -- `if err != nil { log; return }`, and otherwise the Habitat is put in the queue.
  abbrev enqueue_found : Result (Error api.Failure) Habitat → Act api (Unit {0})
  enqueue_found (err e) = pure tt
  enqueue_found (ok h) = enqueue h

  abbrev enqueue_owner : Meta → Act api (Unit {0})
  enqueue_owner m = do r ← attempt (get_habitat_from_labeled_resource m); enqueue_found r

  unfoldable pub handle_hab_add : Object → Act api (Unit {0})
  handle_hab_add (habitat h) = enqueue h
  handle_hab_add _ = pure tt

  unfoldable pub handle_hab_update : Object → Object → Act api (Unit {0})
  handle_hab_update (habitat old_hab) (habitat new_hab) =
      if habitat_needs_update old_hab new_hab then enqueue new_hab else pure tt
  handle_hab_update _ _ = pure tt

  unfoldable pub handle_hab_delete : Object → Act api (Unit {0})
  handle_hab_delete (habitat h) = enqueue h
  handle_hab_delete _ = pure tt

  -- The function that `cache.ListAll` calls on each object of the Habitat store.
  abbrev enqueue_in : String → Object → Act api (Unit {0})
  enqueue_in namespace (habitat h) = if h.meta.namespace == namespace then enqueue h else pure tt
  enqueue_in namespace _ = pure tt

  -- `store` lists the objects of the Habitat store, which all have meta data: `cache.ListAll` would
  -- stop at one that has none.
  pub enqueue_all : String → List Object → Act api (Unit {0})
  enqueue_all namespace [] = pure tt
  enqueue_all namespace (o ∷ store) =
      λ s. let rest = enqueue_all namespace store in (enqueue_in namespace o >> rest) s

  unfoldable pub handle_cm : List Object → Object → Act api (Unit {0})
  unfolding enqueue_all
  handle_cm store (config_map cm) = enqueue_all cm.meta.namespace store
  handle_cm store _ = pure tt

  unfoldable pub handle_cm_add : List Object → Object → Act api (Unit {0})
  handle_cm_add store obj = handle_cm store obj

  unfoldable pub handle_cm_update : List Object → Object → Object → Act api (Unit {0})
  handle_cm_update store old_obj new_obj = handle_cm store new_obj

  unfoldable pub handle_cm_delete : List Object → Object → Act api (Unit {0})
  handle_cm_delete store obj = handle_cm store obj

  unfoldable pub handle_pod_add : Object → Act api (Unit {0})
  handle_pod_add (pod p) = if is_habitat_object p.meta then enqueue_owner p.meta else pure tt
  handle_pod_add _ = pure tt

  unfoldable pub handle_pod_update : Object → Object → Act api (Unit {0})
  handle_pod_update (pod old_pod) (pod new_pod) =
      if pod_needs_update old_pod new_pod then enqueue_owner new_pod.meta else pure tt
  handle_pod_update _ _ = pure tt

  unfoldable pub handle_pod_delete : Object → Act api (Unit {0})
  handle_pod_delete (pod p) = if is_habitat_object p.meta then enqueue_owner p.meta else pure tt
  handle_pod_delete _ = pure tt

  unfoldable pub handle_sts_add : Object → Act api (Unit {0})
  handle_sts_add (stateful_set sts) = enqueue_owner sts
  handle_sts_add _ = pure tt

  unfoldable pub handle_sts_update : Object → Object → Act api (Unit {0})
  handle_sts_update (stateful_set old_sts) (stateful_set new_sts) =
      if old_sts.resource_version == new_sts.resource_version
      then pure tt
      else enqueue_owner new_sts
  handle_sts_update _ _ = pure tt

  unfoldable pub handle_sts_delete : Object → Act api (Unit {0})
  handle_sts_delete (stateful_set sts) = enqueue_owner sts
  handle_sts_delete _ = pure tt
