-- ===== src/Registration/Delivery.antt =====
-- What an informer's calls of the registered handlers put in the queue.
use habitat_operator.Base.{List, ◌≡◌, refl}
use habitat_operator.Kube.Api.{Api}
use habitat_operator.State.{State, Object}
use habitat_operator.Handlers.Adds.{
  Notification, hab_added, hab_updated, hab_deleted, cm_added, cm_updated, cm_deleted, pod_added,
  pod_updated, pod_deleted, sts_added, sts_updated, sts_deleted, handle, Known, handle-AddsEligible,
}
use habitat_operator.Handlers.Eligible.{AddsEligible}
use habitat_operator.Registration.{
  Informer, habitats, stateful_sets, config_maps, pods, Event, added, updated, deleted, registered,
  deliver,
}

abbrev pub notification : Informer → Event → Notification
notification habitats (added o) = hab_added o
notification habitats (updated o n) = hab_updated o n
notification habitats (deleted o) = hab_deleted o
notification stateful_sets (added o) = sts_added o
notification stateful_sets (updated o n) = sts_updated o n
notification stateful_sets (deleted o) = sts_deleted o
notification config_maps (added o) = cm_added o
notification config_maps (updated o n) = cm_updated o n
notification config_maps (deleted o) = cm_deleted o
notification pods (added o) = pod_added o
notification pods (updated o n) = pod_updated o n
notification pods (deleted o) = pod_deleted o

module _ (api : Api) (store : List Object) where
  deliver-handle :
      (i : Informer) (e : Event)
      → deliver api (registered api store i) e ≡ handle api store (notification i e)
  unfolding deliver registered handle
  deliver-handle habitats (added o) = refl
  deliver-handle habitats (updated o n) = refl
  deliver-handle habitats (deleted o) = refl
  deliver-handle stateful_sets (added o) = refl
  deliver-handle stateful_sets (updated o n) = refl
  deliver-handle stateful_sets (deleted o) = refl
  deliver-handle config_maps (added o) = refl
  deliver-handle config_maps (updated o n) = refl
  deliver-handle config_maps (deleted o) = refl
  deliver-handle pods (added o) = refl
  deliver-handle pods (updated o n) = refl
  deliver-handle pods (deleted o) = refl

  pub deliver-AddsEligible :
      (i : Informer) (e : Event) (s : State api)
      → AddsEligible api
          (Known api store (notification i e) s)
          s
          (deliver api (registered api store i) e s)
  deliver-AddsEligible i e s =
      rw (deliver-handle i e) (handle-AddsEligible api store (notification i e) s)
