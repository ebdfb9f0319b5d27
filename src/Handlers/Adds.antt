-- ===== src/Handlers/Adds.antt =====
-- What the handlers put in the queue.
use habitat_operator.Base.{String, ◌==◌, ◌≡◌, refl, List, Among}
use habitat_operator.Types.{Habitat}
use habitat_operator.Kube.Objects.{Meta}
use habitat_operator.Kube.Api.{Api}
use habitat_operator.Labels.{is_habitat_object}
use habitat_operator.State.{Act, State, Object, found, habitat, pod, stateful_set, config_map}
use habitat_operator.Handlers.{
  habitat_needs_update, pod_needs_update, handle_hab_add, handle_hab_update, handle_hab_delete,
  enqueue_owner, handle_cm, handle_cm_add, handle_cm_update, handle_cm_delete, handle_pod_add,
  handle_pod_update, handle_pod_delete, handle_sts_add, handle_sts_update, handle_sts_delete,
}
use habitat_operator.Handlers.Eligible.{
  AddsEligible, AddsEligible-nil, enqueue-AddsEligible, owner-AddsEligible, if-AddsEligible,
  all-AddsEligible,
}

-- What an informer can tell the controller.
pub data Notification : Type 0 where
  hab_added hab_deleted cm_added cm_deleted pod_added pod_deleted sts_added sts_deleted :
      Object → Notification
  hab_updated cm_updated pod_updated sts_updated : Object → Object → Notification

module _ (api : Api) where
  -- `store` lists the Habitat store, which the handlers of ConfigMaps go through.
  unfoldable pub handle : List Object → Notification → Act api (Unit {0})
  handle store (hab_added o) = handle_hab_add api o
  handle store (hab_deleted o) = handle_hab_delete api o
  handle store (hab_updated o n) = handle_hab_update api o n
  handle store (cm_added o) = handle_cm_add api store o
  handle store (cm_deleted o) = handle_cm_delete api store o
  handle store (cm_updated o n) = handle_cm_update api store o n
  handle store (pod_added o) = handle_pod_add api o
  handle store (pod_deleted o) = handle_pod_delete api o
  handle store (pod_updated o n) = handle_pod_update api o n
  handle store (sts_added o) = handle_sts_add api o
  handle store (sts_deleted o) = handle_sts_delete api o
  handle store (sts_updated o n) = handle_sts_update api o n

  -- The Habitats that a handler may wake: the one that it is told of, as it is now; those of the
  -- store; or one that is cached.
  abbrev pub Known : List Object → Notification → State api → Habitat → Type 0
  Known store (hab_added o) s h = o ≡ habitat h
  Known store (hab_deleted o) s h = o ≡ habitat h
  Known store (hab_updated o n) s h = n ≡ habitat h
  Known store (cm_added o) s h = Among (habitat h) store
  Known store (cm_deleted o) s h = Among (habitat h) store
  Known store (cm_updated o n) s h = Among (habitat h) store
  Known store _ s h = (k : String) × (s.habitats k ≡ found (habitat h))

  abbrev Cached : State api → Habitat → Type 0
  Cached s h = (k : String) × (s.habitats k ≡ found (habitat h))

  hab-AddsEligible :
      (o : Object) (s : State api)
      → AddsEligible api (λ h. o ≡ habitat h) s (handle_hab_add api o s)
  unfolding handle_hab_add
  hab-AddsEligible (habitat h) s = enqueue-AddsEligible api _ h s refl
  hab-AddsEligible _ s = AddsEligible-nil api _ s

  hab_delete-AddsEligible :
      (o : Object) (s : State api)
      → AddsEligible api (λ h. o ≡ habitat h) s (handle_hab_delete api o s)
  unfolding handle_hab_delete
  hab_delete-AddsEligible (habitat h) s = enqueue-AddsEligible api _ h s refl
  hab_delete-AddsEligible _ s = AddsEligible-nil api _ s

  hab_update-AddsEligible :
      (o n : Object) (s : State api)
      → AddsEligible api (λ h. n ≡ habitat h) s (handle_hab_update api o n s)
  unfolding handle_hab_update
  hab_update-AddsEligible (habitat old) (habitat new) s =
      if-AddsEligible api _ (habitat_needs_update old new) _ _ s
        (enqueue-AddsEligible api _ new s refl) (AddsEligible-nil api _ s)
  hab_update-AddsEligible (habitat old) _ s = AddsEligible-nil api _ s
  hab_update-AddsEligible _ _ s = AddsEligible-nil api _ s

  cm-AddsEligible :
      (store : List Object) (o : Object) (s : State api)
      → AddsEligible api (λ h. Among (habitat h) store) s (handle_cm api store o s)
  unfolding handle_cm
  cm-AddsEligible store (config_map cm) s =
      all-AddsEligible api _ cm.meta.namespace store s (λ h m. m)
  cm-AddsEligible store _ s = AddsEligible-nil api _ s

  -- An object whose labels lead to a cached Habitat.
  cached-AddsEligible :
      (m : Meta) (s : State api) → AddsEligible api (Cached s) s (enqueue_owner api m s)
  cached-AddsEligible m s = owner-AddsEligible api (Cached s) m s (λ k h e. (k, e))

  pod-AddsEligible :
      (o : Object) (s : State api) → AddsEligible api (Cached s) s (handle_pod_add api o s)
  unfolding handle_pod_add
  pod-AddsEligible (pod p) s =
      if-AddsEligible api _ (is_habitat_object p.meta) _ _ s (cached-AddsEligible p.meta s)
        (AddsEligible-nil api _ s)
  pod-AddsEligible _ s = AddsEligible-nil api _ s

  pod_delete-AddsEligible :
      (o : Object) (s : State api) → AddsEligible api (Cached s) s (handle_pod_delete api o s)
  unfolding handle_pod_delete
  pod_delete-AddsEligible (pod p) s =
      if-AddsEligible api _ (is_habitat_object p.meta) _ _ s (cached-AddsEligible p.meta s)
        (AddsEligible-nil api _ s)
  pod_delete-AddsEligible _ s = AddsEligible-nil api _ s

  pod_update-AddsEligible :
      (o n : Object) (s : State api) → AddsEligible api (Cached s) s (handle_pod_update api o n s)
  unfolding handle_pod_update
  pod_update-AddsEligible (pod old) (pod new) s =
      if-AddsEligible api _ (pod_needs_update old new) _ _ s (cached-AddsEligible new.meta s)
        (AddsEligible-nil api _ s)
  pod_update-AddsEligible (pod old) _ s = AddsEligible-nil api _ s
  pod_update-AddsEligible _ _ s = AddsEligible-nil api _ s

  sts-AddsEligible :
      (o : Object) (s : State api) → AddsEligible api (Cached s) s (handle_sts_add api o s)
  unfolding handle_sts_add
  sts-AddsEligible (stateful_set m) s = cached-AddsEligible m s
  sts-AddsEligible _ s = AddsEligible-nil api _ s

  sts_delete-AddsEligible :
      (o : Object) (s : State api) → AddsEligible api (Cached s) s (handle_sts_delete api o s)
  unfolding handle_sts_delete
  sts_delete-AddsEligible (stateful_set m) s = cached-AddsEligible m s
  sts_delete-AddsEligible _ s = AddsEligible-nil api _ s

  sts_update-AddsEligible :
      (o n : Object) (s : State api) → AddsEligible api (Cached s) s (handle_sts_update api o n s)
  unfolding handle_sts_update
  sts_update-AddsEligible (stateful_set old) (stateful_set new) s =
      if-AddsEligible api _ (old.resource_version == new.resource_version) _ _ s
        (AddsEligible-nil api _ s) (cached-AddsEligible new s)
  sts_update-AddsEligible (stateful_set old) _ s = AddsEligible-nil api _ s
  sts_update-AddsEligible _ _ s = AddsEligible-nil api _ s

  -- Whatever an informer tells the controller, the handler returns without an error or a panic. All
  -- that it changes is the queue, to which it adds keys of Habitats with the version `v1beta2`: of the
  -- Habitat that it is told of, as it is now; of Habitats of the store, for a ConfigMap; or of a cached
  -- Habitat, for a pod or a StatefulSet.
  pub handle-AddsEligible :
      (store : List Object) (n : Notification) (s : State api)
      → AddsEligible api (Known store n s) s (handle store n s)
  unfolding handle handle_cm_add handle_cm_update handle_cm_delete
  handle-AddsEligible store (hab_added o) s = hab-AddsEligible o s
  handle-AddsEligible store (hab_deleted o) s = hab_delete-AddsEligible o s
  handle-AddsEligible store (hab_updated o n) s = hab_update-AddsEligible o n s
  handle-AddsEligible store (cm_added o) s = cm-AddsEligible store o s
  handle-AddsEligible store (cm_deleted o) s = cm-AddsEligible store o s
  handle-AddsEligible store (cm_updated o n) s = cm-AddsEligible store n s
  handle-AddsEligible store (pod_added o) s = pod-AddsEligible o s
  handle-AddsEligible store (pod_deleted o) s = pod_delete-AddsEligible o s
  handle-AddsEligible store (pod_updated o n) s = pod_update-AddsEligible o n s
  handle-AddsEligible store (sts_added o) s = sts-AddsEligible o s
  handle-AddsEligible store (sts_deleted o) s = sts_delete-AddsEligible o s
  handle-AddsEligible store (sts_updated o n) s = sts_update-AddsEligible o n s
