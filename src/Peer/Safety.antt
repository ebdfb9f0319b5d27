-- ===== src/Peer/Safety.antt =====
-- Panics of `handleConfigMap`.
use habitat_operator.Base.{
  assign, String, Bool, true, false, Option, none, some, List, [], ◌∷◌, Result, ok, err, Outcome,
  panics, ◌>>=◌, ◌>>◌, ◌≡◌, ◌≢◌, refl, ap, sym, subst, ◌∙◌, pure, throw, if◌then◌else◌,
}
use habitat_operator.Base.Bind.{bind-ne-panics, bind-ne-panics_of}
use habitat_operator.Types.{Habitat, habitat_label}
use habitat_operator.Kube.Objects.{Pod, ConfigMap}
use habitat_operator.Kube.Api.{Api}
use habitat_operator.Labels.{new_config_map, peer_file}
use habitat_operator.Peer.{
  set_found, Cached, entry, get_running_pods, find_config_map_in_cache, from_cache, get_by_key,
  write_and_update, write_leader_ip, is_running, empty_created, leader_created, replace_leader,
  with_running_pods, handle_config_map,
}
use habitat_operator.Peer.Lookup.{find_cached, find_cached_state}
use habitat_operator.State.{
  State, Act, library, check, Found, failed, missing, found, Object, config_map, EventCall,
  record_event,
}
use habitat_operator.State.Checked.{check-ne-panics, check_state}

-- What the cache holds under the key of the Habitat's peer ConfigMap is a ConfigMap with data.
abbrev pub IsWritable : (api : Api) → Habitat → (String → Found api.Failure) → Type 0
IsWritable api h cache =
    (ip k : String) (o : Object)
    → api.meta_key (new_config_map ip h).meta ≡ ok k
    → cache k ≡ found o
    → (cm : ConfigMap) × (m : List (String × String)) × (o ≡ config_map cm) × (cm.contents ≡ some m)

same_contents : (a b : ConfigMap) → config_map a ≡ config_map b → a.contents ≡ b.contents
same_contents a b e = ap contents e
  where
    contents : Object → Option (List (String × String))
    contents (config_map cm) = cm.contents
    contents _ = none

pub if-ne-panics :
    {E S A : Type 0} (b : Bool) (m n : S → Outcome E A × S) (s : S)
    → (m s).0 ≢ panics
    → (n s).0 ≢ panics
    → ((if b then m else n) s).0 ≢ panics
if-ne-panics true m n s h k = h
if-ne-panics false m n s h k = k

module _ (api : Api) (h : Habitat) where
  write-ne-panics :
      (c : Cached) (m : List (String × String)) (ip : String) (ev : EventCall) (s : State api)
      → c.object.contents ≡ some m
      → ((write_leader_ip api c ip >> record_event api ev) s).0 ≢ panics
  unfolding write_leader_ip
  write-ne-panics c m ip ev s full =
      let r = write_and_update api c c.object.contents ip s in
      bind-ne-panics r.0 (λ _. record_event api ev) r.1
        (subst (λ o. (write_and_update api c o ip s).0 ≢ panics) (sym full) updated) λ _. λ p. cc
    where
      updated : (write_and_update api c (some m) ip s).0 ≢ panics
      updated =
          let cm = record (c.object) { contents = some (assign peer_file ip m) } in
          let call = api.update_config_map cm.meta.namespace cm s.world in
          let t = record s { world = call.1; config_maps = set_found s.config_maps c.key cm } in
          bind-ne-panics (check api call.0 t).0 (λ _. pure tt) (check api call.0 t).1
            (check-ne-panics api call.0 t) λ _. λ p. cc

  module _ (s : State api) (writable : IsWritable api h s.config_maps) where
    cached-ne-panics :
        (ip k : String) (o : Found api.Failure)
        → api.meta_key (new_config_map ip h).meta ≡ ok k
        → s.config_maps k ≡ o
        → (from_cache api k o s).0 ≢ panics
    cached-ne-panics ip k (failed e) key there = λ p. cc
    cached-ne-panics ip k missing key there = λ p. cc
    cached-ne-panics ip k (found o) key there =
        let (cm, m, same, _) = writable ip k o key there in
        subst (λ x. (from_cache api k (found x) s).0 ≢ panics) (sym same) λ p. cc

    find-ne-panics :
        (ip : String) → (find_config_map_in_cache api (new_config_map ip h) s).0 ≢ panics
    unfolding find_config_map_in_cache
    find-ne-panics ip = keyed (api.meta_key (new_config_map ip h).meta) refl
      where
        keyed :
            (r : Result api.Failure String)
            → api.meta_key (new_config_map ip h).meta ≡ r
            → ((check api r >>= get_by_key api) s).0 ≢ panics
        keyed (ok k) key = cached-ne-panics ip k (s.config_maps k) key refl
        keyed (err e) key = λ p. cc

    -- What the cache gives can be written through.
    existing-ne-panics :
        (ip : String) (next : Cached → Act api (Unit {0}))
        → ((c : Cached) (m : List (String × String))
            → c.object.contents ≡ some m
            → (next c s).0 ≢ panics)
        → ((find_config_map_in_cache api (new_config_map ip h) >>= next) s).0 ≢ panics
    existing-ne-panics ip next step =
        let cm = new_config_map ip h in
        let m = find_config_map_in_cache api cm in
        bind-ne-panics_of (m s).0 next (m s).1 (find-ne-panics ip) λ c got.
          let (key, there) = find_cached api cm s c got in
          let (cm', full, same, has) = writable ip c.key (config_map c.object) key there in
          subst (λ t. (next c t).0 ≢ panics) (sym (find_cached_state api cm s))
            (step c full (same_contents c.object cm' same ∙ has))

    empty-ne-panics :
        (r : Result api.Failure ConfigMap)
        → (empty_created api h (new_config_map "" h) r s).0 ≢ panics
    empty-ne-panics (ok cm) = λ p. cc
    empty-ne-panics (err e) =
        if-ne-panics (api.is_already_exists e) _ (throw (library e)) s
          (existing-ne-panics "" _ λ c m full. write-ne-panics c m "" _ s full) λ p. cc

    leader-ne-panics :
        (ip : String) (pods : List Pod) (r : Result api.Failure ConfigMap)
        → (leader_created api h ip pods (new_config_map ip h) r s).0 ≢ panics
    leader-ne-panics ip pods (ok cm) = λ p. cc
    leader-ne-panics ip pods (err e) =
        if-ne-panics (api.is_already_exists e) _ (throw (library e)) s
          (existing-ne-panics ip (replace_leader api h ip pods) λ c m full.
            if-ne-panics (is_running (entry peer_file c.object.contents) pods) (pure tt) _ s
              (λ p. cc) (write-ne-panics c m ip _ s full))
          λ p. cc

  running-ne-panics :
      (pods : List Pod) (s : State api)
      → IsWritable api h s.config_maps
      → (with_running_pods api h pods s).0 ≢ panics
  unfolding with_running_pods
  running-ne-panics [] s writable = empty-ne-panics (record s { world = _ }) writable _
  running-ne-panics (p ∷ pods) s writable =
      leader-ne-panics (record s { world = _ }) writable p.pod_ip (p ∷ pods) _

  -- `handleConfigMap` does not panic, whatever the server answers, if what the cache has under the
  -- key of the peer ConfigMap is a ConfigMap with data.
  pub handle_config_map-ne-panics :
      (s : State api) → IsWritable api h s.config_maps → (handle_config_map api h s).0 ≢ panics
  unfolding handle_config_map get_running_pods
  handle_config_map-ne-panics s writable =
      let fs = api.selector_from_set (("status.phase", "Running") ∷ []) in
      let ls = api.selector_from_set ((habitat_label, "true") ∷ []) in
      let call = api.list_pods h.meta.namespace fs ls s.world in
      let t = record s { world = call.1 } in
      let r = check api call.0 t in
      bind-ne-panics r.0 (with_running_pods api h) r.1 (check-ne-panics api call.0 t) λ pods.
        subst (λ u. (with_running_pods api h pods u).0 ≢ panics) (sym (check_state api call.0 t))
          (running-ne-panics pods t writable)
