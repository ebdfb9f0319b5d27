-- ===== src/Peer/Changes.antt =====
-- What the calls of `handleConfigMap` do to the leader of the server's ConfigMap.
use habitat_operator.Base.{
  ◌≢◌, String, true, Option, none, some, List, [], ◌∷◌, Result, ok, err, Outcome, returns, ◌>>=◌,
  ◌>>◌, ◌≡◌, refl, sym, ◌∙◌, ap, inl, inr, Bool-cases, subst,
}
use habitat_operator.Base.Bind.{returns-bind, bind-of_returns}
use habitat_operator.Types.{Habitat, habitat_label}
use habitat_operator.Kube.Objects.{Pod, ConfigMap}
use habitat_operator.Kube.Api.{Api}
use habitat_operator.Labels.{peer_file, config_map_name, new_config_map}
use habitat_operator.Peer.{
  Cached, entry, get_running_pods, find_config_map_in_cache, write_leader_ip, is_running,
  empty_created, leader_created, replace_leader,
}
use habitat_operator.Peer.Lookup.{written, find_cached_state, find_cached}
use habitat_operator.Peer.Server.{PeerServer, IsSynced}
use habitat_operator.State.Checked.{check_state}
use habitat_operator.State.{Act, State, Error, EventCall, record_event}
use habitat_operator.Peer.Election.{
  stays, chosen, IsElected, is_running_sound, is_running_complete, stays, chosen,
}

module _ (api : Api) (server : PeerServer api) (h : Habitat) where
  abbrev pub leader_after : Outcome (Error api.Failure) (Unit {0}) × State api → Option String
  leader_after r = server.leader r.1.world h.meta.namespace

  -- A write to the cached ConfigMap of the namespace, with the event that follows it.
  replaced :
      (c : Cached) (ip : String) (ev : EventCall) (s : State api)
      → c.object.meta.name ≡ config_map_name
      → c.object.meta.namespace ≡ h.meta.namespace
      → ((write_leader_ip api c ip >> record_event api ev) s).0 ≡ returns tt
      → leader_after ((write_leader_ip api c ip >> record_event api ev) s) ≡ some ip
  unfolding write_leader_ip
  replaced c ip ev s name ns e =
      let m = write_leader_ip api c ip in
      let (u, got, _) = returns-bind m (λ _. record_event api ev) s tt e in
      ap leader_after (bind-of_returns (m s).0 (λ _. record_event api ev) (m s).1 u got)
      ∙ ap (server.leader (m s).1.world) (sym ns)
      ∙ written api server c c.object.contents ip s name got

  -- The cached object that a call finds is the namespace's peer ConfigMap, as the server has it.
  cached_peer :
      (ip : String) (s : State api) (c : Cached)
      → IsSynced server s h.meta.namespace
      → (find_config_map_in_cache api (new_config_map ip h) s).0 ≡ returns c
      → (c.object.meta.name ≡ config_map_name)
        × (c.object.meta.namespace ≡ h.meta.namespace)
        × (server.leader s.world h.meta.namespace ≡ some (entry peer_file c.object.contents))
  cached_peer ip s c synced e =
      let (key, there) = find_cached api (new_config_map ip h) s c e in
      synced c.key c.object there ip h refl key

  -- The branch for an existing ConfigMap, where it goes on with what the cache has.
  existing :
      (ip : String) (next : Cached → Act api (Unit {0})) (s : State api)
      (P : Option String → Type 0)
      → IsSynced server s h.meta.namespace
      → ((c : Cached)
          → c.object.meta.name ≡ config_map_name
          → c.object.meta.namespace ≡ h.meta.namespace
          → server.leader s.world h.meta.namespace ≡ some (entry peer_file c.object.contents)
          → (next c s).0 ≡ returns tt
          → P (leader_after (next c s)))
      → ((find_config_map_in_cache api (new_config_map ip h) >>= next) s).0 ≡ returns tt
      → P (leader_after ((find_config_map_in_cache api (new_config_map ip h) >>= next) s))
  existing ip next s P synced step e =
      let m = find_config_map_in_cache api (new_config_map ip h) in
      let (c, got, rest) = returns-bind m next s tt e in
      let same = find_cached_state api (new_config_map ip h) s in
      let (name, ns, stored) = cached_peer ip s c synced got in
      subst (λ x. P (leader_after x)) (sym (bind-of_returns (m s).0 next (m s).1 c got))
        (subst (λ t. P (leader_after (next c t))) (sym same)
          (step c name ns stored (subst (λ t. (next c t).0 ≡ returns tt) same rest)))

  pub empty_leader :
      (r : Result api.Failure ConfigMap) (s : State api)
      → ((c : ConfigMap) → r ≡ ok c → server.leader s.world h.meta.namespace ≡ some "")
      → ((e : api.Failure)
          → r ≡ err e
          → api.is_already_exists e ≡ true
          → IsSynced server s h.meta.namespace)
      → (empty_created api h (new_config_map "" h) r s).0 ≡ returns tt
      → leader_after (empty_created api h (new_config_map "" h) r s) ≡ some ""
  empty_leader (ok c) s created synced e = created c refl
  empty_leader (err x) s created synced e = elim (Bool-cases (api.is_already_exists x)) [
    | inl exists ↦ rw exists (
        existing "" _ s (λ l. l ≡ some "") (synced x refl exists)
          (λ c name ns stored got. replaced c "" _ s name ns got) (rw exists at e))
    | inr other ↦ cc (other)
  ]

  pub leader_leader :
      (p : Pod) (pods : List Pod) (before : Option String) (r : Result api.Failure ConfigMap)
      (s : State api)
      → ((c : ConfigMap)
          → r ≡ ok c
          → (before ≡ none) × (server.leader s.world h.meta.namespace ≡ some p.pod_ip))
      → ((e : api.Failure)
          → r ≡ err e
          → api.is_already_exists e ≡ true
          → (before ≡ server.leader s.world h.meta.namespace) × IsSynced server s h.meta.namespace)
      → (leader_created api h p.pod_ip (p ∷ pods) (new_config_map p.pod_ip h) r s).0 ≡ returns tt
      → IsElected
          (p ∷ pods)
          before
          (leader_after (leader_created api h p.pod_ip (p ∷ pods) (new_config_map p.pod_ip h) r s))
  leader_leader p pods before (ok c) s created synced e =
      let (none_yet, now) = created c refl in
      (p.pod_ip, now, chosen p pods refl (λ q m f. differ none_yet f) refl)
    where
      differ : {x : String} → before ≡ none → before ≢ some x
      differ e f = cc
  leader_leader p pods before (err x) s created synced e =
      elim (Bool-cases (api.is_already_exists x)) [
        | inl exists ↦ rw exists (
            existing p.pod_ip (replace_leader api h p.pod_ip (p ∷ pods)) s
              (IsElected (p ∷ pods) before) (synced x refl exists).1 (kept (synced x refl exists).0)
              (rw exists at e))
        | inr other ↦ cc (other)
      ]
    where
      kept :
          before ≡ server.leader s.world h.meta.namespace
          → (c : Cached) → c.object.meta.name ≡ config_map_name
          → c.object.meta.namespace ≡ h.meta.namespace
          → server.leader s.world h.meta.namespace ≡ some (entry peer_file c.object.contents)
          → (replace_leader api h p.pod_ip (p ∷ pods) c s).0 ≡ returns tt
          → IsElected
              (p ∷ pods)
              before
              (leader_after (replace_leader api h p.pod_ip (p ∷ pods) c s))
      kept was c name ns stored got =
          elim (Bool-cases (is_running (entry peer_file c.object.contents) (p ∷ pods))) [
            | inl running ↦
                let (q, m, f) = is_running_sound _ (p ∷ pods) running in
                rw running (q.pod_ip, stored ∙ ap some f, stays q m (was ∙ stored ∙ ap some f) refl)
            | inr gone ↦ rw gone (
              p.pod_ip,
              replaced c p.pod_ip _ s name ns (rw gone at got),
              chosen p pods refl
                  (λ q m f. is_running_complete _ (p ∷ pods) gone q m (sym (was ∙ stored) ∙ f))
                  refl,
            )
          ]

  pub still-IsSynced :
      (s t : State api)
      → server.leader t.world h.meta.namespace ≡ server.leader s.world h.meta.namespace
      → t.config_maps ≡ s.config_maps
      → IsSynced server s h.meta.namespace
      → IsSynced server t h.meta.namespace
  still-IsSynced s t same cache synced k cm there ip g ns key =
      let (a, b, c) = synced k cm (ap (λ x. x k) (sym cache) ∙ there) ip g ns key in
      (a, b, same ∙ c)

  pub get_running_pods_state :
      (s : State api)
      → ((get_running_pods api h.meta.namespace s).1.config_maps ≡ s.config_maps)
        × (server.leader (get_running_pods api h.meta.namespace s).1.world h.meta.namespace
            ≡ server.leader s.world h.meta.namespace)
  unfolding get_running_pods
  get_running_pods_state s =
      let fs = api.selector_from_set (("status.phase", "Running") ∷ []) in
      let ls = api.selector_from_set ((habitat_label, "true") ∷ []) in
      let call = api.list_pods h.meta.namespace fs ls s.world in
      let same = check_state api call.0 (record s { world = call.1 }) in
      (
        ap (λ (t : State api). t.config_maps) same,
        ap (λ (t : State api). server.leader t.world h.meta.namespace) same
            ∙ server.leader-list h.meta.namespace fs ls s.world,
      )
