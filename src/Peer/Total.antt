-- ===== src/Peer/Total.antt =====
-- When `handleConfigMap` returns no error.
use habitat_operator.Base.{
  String, none, some, List, [], ◌∷◌, Option, ok, returns, ◌>>◌, ◌≡◌, refl, sym, ◌∙◌, ap, inl, inr,
  Bool-cases, assign, ◌⊎◌,
}
use habitat_operator.Types.{Habitat}
use habitat_operator.Kube.Objects.{Meta, Pod, ConfigMap}
use habitat_operator.Kube.Api.{Api}
use habitat_operator.Labels.{peer_file, new_config_map}
use habitat_operator.Peer.{
  Cached, entry, find_config_map_in_cache, write_leader_ip, is_running, with_running_pods,
  handle_config_map,
}
use habitat_operator.State.{State, Found, found, config_map, EventCall, record_event}
use habitat_operator.Conform.Server.{ServesPeers}

-- The cache has the peer ConfigMap of a Habitat in this version, with data.
abbrev pub HoldsPeers :
    (api : Api) → Habitat → (String → Found api.Failure) → Meta → String → Type 0
HoldsPeers api h cache meta ip =
    (k : String) × (cm : ConfigMap) × (m : List (String × String)) × (api.meta_key
        (new_config_map ip h).meta
      ≡ ok k)
    × (cache k ≡ found (config_map cm))
    × (cm.contents ≡ some m)
    × (cm.meta ≡ meta)

-- The cache has the peer ConfigMap, if the server does, in the server's version.
abbrev pub IsCurrent : {api : Api} {h : Habitat} → ServesPeers api h → State api → Type 0
IsCurrent {api} {h} serves s =
    (m : Meta) (ip : String) → serves.held s.world ≡ some m → HoldsPeers api h s.config_maps m ip

module _ (api : Api) (h : Habitat) (serves : ServesPeers api h) where
  -- A write to the cached ConfigMap, and the event after it.
  write_total :
      (c : Cached) (m : List (String × String)) (ip : String) (ev : EventCall) (s : State api)
      → c.object.contents ≡ some m
      → serves.held s.world ≡ some c.object.meta
      → ((write_leader_ip api c ip >> record_event api ev) s).0 ≡ returns tt
  unfolding write_leader_ip
  write_total c m ip ev s full version =
      let cm = record (c.object) { contents = some (assign peer_file ip m) } in
      let (_, e) = serves.updated cm s.world version in rw (full, e) refl

  option_cases : (o : Option Meta) → (o ≡ none) ⊎ ((m : Meta) × (o ≡ some m))
  option_cases none = inl refl
  option_cases (some m) = inr (m, refl)

  running_total :
      (pods : List Pod) (s : State api)
      → IsCurrent serves s
      → (with_running_pods api h pods s).0 ≡ returns tt
  unfolding with_running_pods find_config_map_in_cache
  running_total [] s current = elim (option_cases (serves.held s.world)) [
    | inl absent ↦ let (cm, e) = serves.created "" s.world absent in rw e refl
    | inr (meta, there) ↦
        let (x, e, exists, kept) = serves.refused "" meta s.world there in
        let (k, cm, m, key, cached, full, version) = current meta "" there in
        rw (e, exists, key, cached)
          (write_total (record { key = k; object = cm }) m "" _ _ full
            (kept ∙ sym (ap some version)))
  ]
  running_total (p ∷ pods) s current = elim (option_cases (serves.held s.world)) [
    | inl absent ↦ let (cm, e) = serves.created p.pod_ip s.world absent in rw e refl
    | inr (meta, there) ↦
        let (x, e, exists, kept) = serves.refused p.pod_ip meta s.world there in
        let (k, cm, m, key, cached, full, version) = current meta p.pod_ip there in
        rw (e, exists, key, cached)
          (elim (Bool-cases (is_running (entry peer_file cm.contents) (p ∷ pods))) [
            | inl stays ↦ rw stays refl
            | inr gone ↦ rw gone (
                write_total (record { key = k; object = cm }) m p.pod_ip _ _ full
                  (kept ∙ sym (ap some version)))
          ])
  ]

  -- `handleConfigMap` returns no error if the server serves, and the cache has the peer ConfigMap in
  -- the server's version, with data, if the server has it at all.
  pub handle_config_map_total :
      (s : State api) → IsCurrent serves s → (handle_config_map api h s).0 ≡ returns tt
  unfolding handle_config_map
  handle_config_map_total s current =
      let (pods, e, kept) =
        serves.listed (api.selector_from_set (("status.phase", "Running") ∷ []))
          (api.selector_from_set (("habitat", "true") ∷ [])) s.world in
      rw e (running_total pods _ (λ m ip there. current m ip (sym kept ∙ there)))
