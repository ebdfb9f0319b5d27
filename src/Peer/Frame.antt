-- ===== src/Peer/Frame.antt =====
-- What `handleConfigMap` leaves as it is.
use habitat_operator.Base.{
  String, Option, none, some, List, [], ◌∷◌, Result, ok, err, ◌≡◌, refl, ◌∙◌, pure, throw, attempt,
  caught, ◌>>=◌, ◌>>◌, assign,
}
use habitat_operator.Types.{Habitat}
use habitat_operator.Kube.Objects.{Pod, ConfigMap}
use habitat_operator.Kube.Api.{Api}
use habitat_operator.Labels.{new_config_map, peer_file}
use habitat_operator.Peer.{
  Cached, entry, set_found, get_running_pods, find_config_map_in_cache, from_cache, get_by_key,
  write_and_update, write_leader_ip, is_running, empty_created, leader_created, replace_leader,
  with_running_pods, handle_config_map, cm_updated, message_peer_ip_removed,
  message_peer_ip_updated,
}
use habitat_operator.State.{
  Act, State, Error, Found, failed, missing, found, config_map, EventCall, event, normal, library,
  check, record_event,
}
use habitat_operator.State.Keeps.{Keeps, Keeps-bind, Keeps-continue, Keeps-if, Keeps-call}

module _ (api : Api) {X : Type 0} (f : State api → X)
    (worlds : (s : State api) (w : api.World) → f (record s { world = w }) ≡ f s)
    (events : (s : State api) (es : List EventCall) → f (record s { events = es }) ≡ f s) where
  pub event-Keeps : (e : EventCall) → Keeps f (record_event api e)
  event-Keeps e s = events s _

  -- An event, and then an error or nothing.
  pub event_then-Keeps :
      (e : EventCall) (m : Act api (Unit {0})) → Keeps f m → Keeps f (record_event api e >> m)
  event_then-Keeps e m h s = h _ ∙ events s _

  pub attempt-Keeps :
      {A B : Type 0} (m : Act api A) (k : Result (Error api.Failure) A → Act api B)
      → Keeps f m
      → ((r : Result (Error api.Failure) A) → Keeps f (k r))
      → Keeps f (attempt m >>= k)
  attempt-Keeps m k h g s = Keeps-continue f (caught (m s).0) k g (m s).1 ∙ h s

  pods-Keeps : (ns : String) → Keeps f (get_running_pods api ns)
  unfolding get_running_pods
  pods-Keeps ns s = listed (api.list_pods ns _ _ s.world).0
    where
      t : State api
      t = record s {
        world =
            (api.list_pods ns (api.selector_from_set (("status.phase", "Running") ∷ []))
              (api.selector_from_set (("habitat", "true") ∷ [])) s.world).1;
      }

      listed : (r : Result api.Failure (List Pod)) → f (check api r t).1 ≡ f s
      listed (ok a) = worlds s _
      listed (err e) = worlds s _

  from-Keeps : (k : String) (o : Found api.Failure) → Keeps f (from_cache api k o)
  from-Keeps k (failed e) s = refl
  from-Keeps k missing s = refl
  from-Keeps k (found (config_map cm)) s = refl
  from-Keeps k (found _) s = refl

  find-Keeps : (cm : ConfigMap) → Keeps f (find_config_map_in_cache api cm)
  unfolding find_config_map_in_cache
  find-Keeps cm s = keyed (api.meta_key cm.meta)
    where
      keyed : (r : Result api.Failure String) → f ((check api r >>= get_by_key api) s).1 ≡ f s
      keyed (ok k) = from-Keeps k (s.config_maps k) s
      keyed (err e) = refl

  module _
      (caches : (s : State api) (c : String → Found api.Failure)
        → f (record s { config_maps = c }) ≡ f s) where
    written-Keeps :
        (c : Cached) (m : Option (List (String × String))) (ip : String)
        → Keeps f (write_and_update api c m ip)
    written-Keeps c none ip s = refl
    written-Keeps c (some m) ip s =
        let cm = record (c.object) { contents = some (assign peer_file ip m) } in
        Keeps-call api f (api.update_config_map cm.meta.namespace cm) (λ _. pure tt)
          (λ t. worlds t _) (λ _ t. refl)
          (record s { config_maps = set_found s.config_maps c.key cm })
        ∙ caches s _

    write-Keeps : (c : Cached) (ip : String) → Keeps f (write_leader_ip api c ip)
    unfolding write_leader_ip
    write-Keeps c ip = written-Keeps c c.object.contents ip

    empty-Keeps :
        (h : Habitat) (cm : ConfigMap) (r : Result api.Failure ConfigMap)
        → Keeps f (empty_created api h cm r)
    empty-Keeps h cm (ok c) = event-Keeps _
    empty-Keeps h cm (err e) =
        let ev = event h.meta normal cm_updated message_peer_ip_removed in
        Keeps-if f (api.is_already_exists e) _ (throw (library e))
          (Keeps-bind f (find_config_map_in_cache api cm)
            (λ c. write_leader_ip api c "" >> record_event api ev) (find-Keeps cm)
            λ c.
              Keeps-bind f (write_leader_ip api c "") (λ _. record_event api ev) (write-Keeps c "")
                λ _. event-Keeps ev)
          λ s. refl

    replace-Keeps :
        (h : Habitat) (ip : String) (pods : List Pod) (c : Cached)
        → Keeps f (replace_leader api h ip pods c)
    replace-Keeps h ip pods c =
        let ev = event h.meta normal cm_updated message_peer_ip_updated in
        Keeps-if f (is_running (entry peer_file c.object.contents) pods) (pure tt) _ (λ s. refl)
          (Keeps-bind f (write_leader_ip api c ip) (λ _. record_event api ev) (write-Keeps c ip)
            λ _. event-Keeps ev)

    leader-Keeps :
        (h : Habitat) (ip : String) (pods : List Pod) (cm : ConfigMap)
        (r : Result api.Failure ConfigMap)
        → Keeps f (leader_created api h ip pods cm r)
    leader-Keeps h ip pods cm (ok c) = event-Keeps _
    leader-Keeps h ip pods cm (err e) =
        Keeps-if f (api.is_already_exists e) _ (throw (library e))
          (Keeps-bind f (find_config_map_in_cache api cm) (replace_leader api h ip pods)
            (find-Keeps cm) (replace-Keeps h ip pods))
          λ s. refl

    running-Keeps : (h : Habitat) (pods : List Pod) → Keeps f (with_running_pods api h pods)
    unfolding with_running_pods
    running-Keeps h [] s =
        empty-Keeps h _ (api.create_config_map h.meta.namespace (new_config_map "" h) s.world).0 _
        ∙ worlds s _
    running-Keeps h (p ∷ pods) s =
        leader-Keeps h p.pod_ip (p ∷ pods) _
          (api.create_config_map h.meta.namespace (new_config_map p.pod_ip h) s.world).0 _
        ∙ worlds s _

    pub handle_config_map-Keeps : (h : Habitat) → Keeps f (handle_config_map api h)
    unfolding handle_config_map
    handle_config_map-Keeps h =
        Keeps-bind f (get_running_pods api h.meta.namespace) (with_running_pods api h)
          (pods-Keeps h.meta.namespace) (running-Keeps h)
