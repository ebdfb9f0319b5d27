-- ===== src/Peer/Leader.antt =====
-- `handleConfigMap`, seen as an election on the server's ConfigMap.
use habitat_operator.Base.{some, List, [], ◌∷◌, returns, ◌≡◌, refl, sym, ◌∙◌, ap, subst}
use habitat_operator.Base.Bind.{returns-bind, bind-of_returns}
use habitat_operator.Types.{Habitat}
use habitat_operator.Kube.Objects.{Pod}
use habitat_operator.Kube.Api.{Api}
use habitat_operator.Labels.{new_config_map}
use habitat_operator.Peer.{get_running_pods, with_running_pods, handle_config_map}
use habitat_operator.Peer.Lookup.{name-new_config_map, entry-new_config_map}
use habitat_operator.Peer.Server.{PeerServer, IsSynced}
use habitat_operator.State.{State}
use habitat_operator.Peer.Election.{IsChosen, nobody, IsElected, IsElected-IsChosen}
use habitat_operator.Peer.Changes.{
  leader_after, empty_leader, leader_leader, still-IsSynced, get_running_pods_state,
}

module _ (api : Api) (server : PeerServer api) (h : Habitat) where
  with_running_pods_leader :
      (pods : List Pod) (s : State api)
      → IsSynced server s h.meta.namespace
      → (with_running_pods api h pods s).0 ≡ returns tt
      → IsElected pods
          (server.leader s.world h.meta.namespace)
          (leader_after api server h (with_running_pods api h pods s))
  unfolding with_running_pods
  with_running_pods_leader [] s synced e =
      let cm = new_config_map "" h in
      let s1 = record s { world = (api.create_config_map h.meta.namespace cm s.world).1 } in
      let now =
        empty_leader api server h (api.create_config_map h.meta.namespace cm s.world).0 s1
          (λ c got.
            server.leader-create h.meta.namespace cm c s.world (name-new_config_map "" h) got
            ∙ ap some (entry-new_config_map "" h))
          (λ x got exists.
            still-IsSynced api server h s s1
              (server.leader-exists h.meta.namespace cm x s.world got exists) refl synced)
          e in
      ("", now, nobody refl refl)
  with_running_pods_leader (p ∷ pods) s synced e =
      let cm = new_config_map p.pod_ip h in
      let s1 = record s { world = (api.create_config_map h.meta.namespace cm s.world).1 } in
      let name = name-new_config_map p.pod_ip h in
      leader_leader api server h p pods (server.leader s.world h.meta.namespace)
        (api.create_config_map h.meta.namespace cm s.world).0 s1
        (λ c got. (
          server.leader-absent h.meta.namespace cm c s.world name got,
          server.leader-create h.meta.namespace cm c s.world name got
              ∙ ap some (entry-new_config_map p.pod_ip h),
        ))
        (λ x got exists.
          let same = server.leader-exists h.meta.namespace cm x s.world got exists in
          (sym same, still-IsSynced api server h s s1 same refl synced))
        e

  -- If the cache shows what the server has and `handleConfigMap` returns no error, then it has held
  -- an election among the pods that the server listed as running, in their order: from the address
  -- in the server's ConfigMap before, if there was one, to the address there after. Where no pod
  -- runs, that is the empty address; a leader that still runs stays; and otherwise the first of the
  -- pods is chosen.
  pub handle_config_map_elects :
      (s : State api)
      → IsSynced server s h.meta.namespace
      → (handle_config_map api h s).0 ≡ returns tt
      → (pods : List Pod) × ((get_running_pods api h.meta.namespace s).0 ≡ returns pods)
        × IsElected pods
            (server.leader s.world h.meta.namespace)
            (server.leader (handle_config_map api h s).1.world h.meta.namespace)
  unfolding handle_config_map
  handle_config_map_elects s synced e =
      let m = get_running_pods api h.meta.namespace in
      let (pods, got, rest) = returns-bind m (with_running_pods api h) s tt e in
      let listed = get_running_pods_state api server h s in
      (
        pods,
        got,
        subst (λ b. IsElected pods b (leader_after api server h (handle_config_map api h s)))
            listed.1
            (subst
              (λ x.
                IsElected pods (server.leader (m s).1.world h.meta.namespace)
                  (leader_after api server h x))
              (sym (bind-of_returns (m s).0 (with_running_pods api h) (m s).1 pods got))
              (with_running_pods_leader pods (m s).1
                (still-IsSynced api server h s (m s).1 listed.1 listed.0 synced) rest)),
      )

  -- If the cache shows what the server has and `handleConfigMap` returns no error, then the
  -- server's ConfigMap holds the address of one of the pods that the server listed as running, and
  -- the empty address if it listed none.
  pub handle_config_map-IsChosen :
      (s : State api)
      → IsSynced server s h.meta.namespace
      → (handle_config_map api h s).0 ≡ returns tt
      → (pods : List Pod) × ((get_running_pods api h.meta.namespace s).0 ≡ returns pods)
        × IsChosen pods (server.leader (handle_config_map api h s).1.world h.meta.namespace)
  handle_config_map-IsChosen s synced e =
      let (pods, got, elected) = handle_config_map_elects s synced e in
      (pods, got, IsElected-IsChosen pods _ _ elected)
