-- ===== src/Peer.antt =====
-- pkg/controller/v1beta2/controller.go: `handleConfigMap` and what it calls. The ConfigMap with the
-- leader's address is created, or found in the informer's cache and written through the pointer that
-- the cache hands out, so the cached object changes before the server is asked to.
pub mod Total
pub mod Server
pub mod Frame
pub mod Lookup
pub mod Election
pub mod Changes
pub mod Leader
pub mod Retry
pub mod Safety
use habitat_operator.Base.{
  String, ◌==◌, Bool, true, false, ◌||◌, Option, none, some, List, [], ◌∷◌, Result, ok, err, panics,
  pure, throw, ◌>>=◌, ◌>>◌, assign, get_or_empty, if◌then◌else◌,
}
use habitat_operator.Types.{Habitat, habitat_label}
use habitat_operator.Kube.Objects.{Pod, ConfigMap}
use habitat_operator.Kube.Api.{Api}
use habitat_operator.Labels.{peer_file, new_config_map}
use habitat_operator.State.{
  Act, library, key_not_found, Found, failed, missing, found, config_map, event, normal, try, check,
  record_event,
}

abbrev pub cm_created : String
cm_created = "ConfigMapCreated"

abbrev pub cm_updated : String
cm_updated = "ConfigMapUpdated"

abbrev pub message_cm_created : String
message_cm_created = "Created peer IP ConfigMap"

abbrev pub message_peer_ip_updated : String
message_peer_ip_updated = "Updated peer IP in ConfigMap"

abbrev pub message_peer_ip_removed : String
message_peer_ip_removed = "Removed peer IP from ConfigMap"

-- A pointer into the cache: the key it was found under, and the object that it points to.
pub record Cached : Type 0 where
  pub key : String
  pub object : ConfigMap

-- A write to a key of the cached map of one key.
abbrev pub set_found : {F : Type 0} → (String → Found F) → String → ConfigMap → String → Found F
set_found cache k cm j = if j == k then found (config_map cm) else cache j

-- `cm.Data[k]`; reading a nil map gives the zero value.
abbrev pub entry : String → Option (List (String × String)) → String
entry k none = ""
entry k (some m) = get_or_empty k m

-- The loop that looks for the current leader among the running pods.
unfoldable pub is_running : String → List Pod → Bool
is_running ip [] = false
is_running ip (p ∷ pods) = p.pod_ip == ip || is_running ip pods

module _ (api : Api) where
  unfoldable pub get_running_pods : String → Act api (List Pod)
  get_running_pods namespace = do
    let fs = api.selector_from_set (("status.phase", "Running") ∷ [])
    let ls = api.selector_from_set ((habitat_label, "true") ∷ [])
    r ← try api (api.list_pods namespace fs ls)
    check api r

  abbrev from_cache : String → Found api.Failure → Act api Cached
  from_cache k (failed e) = throw (library e)
  from_cache k missing = throw (key_not_found k)
  from_cache k (found (config_map cm)) = pure (record { key = k; object = cm })
  -- `obj.(*apiv1.ConfigMap)`
  from_cache k (found _) = λ s. (panics, s)

  abbrev get_by_key : String → Act api Cached
  get_by_key k s = from_cache k (s.config_maps k) s

  unfoldable pub find_config_map_in_cache : ConfigMap → Act api Cached
  find_config_map_in_cache cm = do k ← check api (api.meta_key cm.meta); get_by_key k

  -- `cm.Data[peerFile] = ip`, which panics on a nil map, and the update.
  abbrev write_and_update : Cached → Option (List (String × String)) → String → Act api (Unit {0})
  write_and_update c none ip s = (panics, s)
  write_and_update c (some m) ip s =
      let cm = record (c.object) { contents = some (assign peer_file ip m) } in
      let written = record s { config_maps = set_found s.config_maps c.key cm } in
      (do r ← try api (api.update_config_map cm.meta.namespace cm); check api r; pure tt) written

  unfoldable pub write_leader_ip : Cached → String → Act api (Unit {0})
  write_leader_ip c ip = write_and_update c c.object.contents ip

  -- No running pods: what follows the attempt to create an empty ConfigMap.
  abbrev pub empty_created : Habitat → ConfigMap → Result api.Failure ConfigMap → Act api (Unit {0})
  empty_created h new_cm (ok cm) =
      record_event api (event h.meta normal cm_created message_cm_created)
  empty_created h new_cm (err e) =
      if api.is_already_exists e
      then (do
        cm ← find_config_map_in_cache new_cm
        write_leader_ip cm ""
        record_event api (event h.meta normal cm_updated message_peer_ip_removed))
      else throw (library e)

  -- The ConfigMap exists: its leader stays if it is still running.
  abbrev pub replace_leader : Habitat → String → List Pod → Cached → Act api (Unit {0})
  replace_leader h leader_ip running_pods cm =
      if is_running (entry peer_file cm.object.contents) running_pods then pure tt else do
        write_leader_ip cm leader_ip
        record_event api (event h.meta normal cm_updated message_peer_ip_updated)

  abbrev pub leader_created :
      Habitat → String → List Pod → ConfigMap → Result api.Failure ConfigMap → Act api (Unit {0})
  leader_created h leader_ip running_pods new_cm (ok cm) =
      record_event api (event h.meta normal cm_created message_cm_created)
  leader_created h leader_ip running_pods new_cm (err e) =
      if api.is_already_exists e
      then (do cm ← find_config_map_in_cache new_cm; replace_leader h leader_ip running_pods cm)
      else throw (library e)

  unfoldable pub with_running_pods : Habitat → List Pod → Act api (Unit {0})
  with_running_pods h [] = do
    let new_cm = new_config_map "" h
    r ← try api (api.create_config_map h.meta.namespace new_cm)
    empty_created h new_cm r
  with_running_pods h (p ∷ pods) = do
    let leader_ip = p.pod_ip
    let new_cm = new_config_map leader_ip h
    r ← try api (api.create_config_map h.meta.namespace new_cm)
    leader_created h leader_ip (p ∷ pods) new_cm r

  unfoldable pub handle_config_map : Habitat → Act api (Unit {0})
  unfolding get_running_pods with_running_pods find_config_map_in_cache write_leader_ip is_running
  handle_config_map h = do
    running_pods ← get_running_pods h.meta.namespace
    with_running_pods h running_pods
