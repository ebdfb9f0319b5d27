-- ===== src/Peer/Lookup.antt =====
-- What `findConfigMapInCache` finds, and what a write to it leaves on the server.
use habitat_operator.Base.{
  String, Option, none, some, List, Result, ok, err, returns, ◌>>=◌, ◌≡◌, refl, sym, ◌∙◌, ap,
  assign, or_empty, lookup-assign, arith,
}
use habitat_operator.Types.{Habitat}
use habitat_operator.Kube.Objects.{ConfigMap}
use habitat_operator.Kube.Api.{Api}
use habitat_operator.Labels.{peer_file, config_map_name, new_config_map}
use habitat_operator.Peer.{
  Cached, entry, find_config_map_in_cache, from_cache, get_by_key, write_and_update,
}
use habitat_operator.Peer.Server.{PeerServer}
use habitat_operator.State.Checked.{checked_returns, checked_state}
use habitat_operator.State.{State, check, Found, failed, missing, found, config_map}

pub entry-assign :
    (ip : String) (m : List (String × String)) → entry peer_file (some (assign peer_file ip m)) ≡ ip
entry-assign ip m = ap or_empty (lookup-assign peer_file ip m)

pub name-new_config_map :
    (ip : String) (h : Habitat) → (new_config_map ip h).meta.name ≡ config_map_name
unfolding new_config_map
name-new_config_map ip h = refl

pub entry-new_config_map :
    (ip : String) (h : Habitat) → entry peer_file (new_config_map ip h).contents ≡ ip
unfolding new_config_map
entry-new_config_map ip h = refl

module _ (api : Api) (server : PeerServer api) where
  -- A write that returned is what the server has.
  pub written :
      (c : Cached) (m : Option (List (String × String))) (ip : String) (s : State api)
      → c.object.meta.name ≡ config_map_name
      → (write_and_update api c m ip s).0 ≡ returns tt
      → server.leader (write_and_update api c m ip s).1.world c.object.meta.namespace ≡ some ip
  written c none ip s name e = cc
  written c (some m) ip s name e =
      let namespace = c.object.meta.namespace in
      let cm = record (c.object) { contents = some (assign peer_file ip m) } in
      let call = api.update_config_map namespace cm s.world in
      let (a, got, _) = checked_returns api call.0 _ _ tt e in
      ap (λ (t : State api). server.leader t.world namespace) (checked_state api call.0 tt _)
      ∙ server.leader-update namespace cm a s.world name got
      ∙ ap some (entry-assign ip m)

module _ (api : Api) where
  from_cache_state :
      (k : String) (o : Found api.Failure) (s : State api) → (from_cache api k o s).1 ≡ s
  from_cache_state k (failed e) s = refl
  from_cache_state k missing s = refl
  from_cache_state k (found (config_map cm)) s = refl
  from_cache_state k (found _) s = refl

  from_cache_returns :
      (k : String) (o : Found api.Failure) (s : State api) (c : Cached)
      → (from_cache api k o s).0 ≡ returns c
      → (k ≡ c.key) × (o ≡ found (config_map c.object))
  from_cache_returns k (failed x) s c e = cc
  from_cache_returns k missing s c e = cc
  from_cache_returns k (found (config_map cm)) s c e = (ground arith, ground arith)
  from_cache_returns k (found _) s c e = cc

  -- What was found in the cache is there under the object's key, and looking changes nothing.
  pub find_cached_state :
      (cm : ConfigMap) (s : State api) → (find_config_map_in_cache api cm s).1 ≡ s
  unfolding find_config_map_in_cache
  find_cached_state cm s = looked (api.meta_key cm.meta)
    where
      looked : (r : Result api.Failure String) → ((check api r >>= get_by_key api) s).1 ≡ s
      looked (ok k) = from_cache_state k (s.config_maps k) s
      looked (err e) = refl

  pub find_cached :
      (cm : ConfigMap) (s : State api) (c : Cached)
      → (find_config_map_in_cache api cm s).0 ≡ returns c
      → (api.meta_key cm.meta ≡ ok c.key) × (s.config_maps c.key ≡ found (config_map c.object))
  unfolding find_config_map_in_cache
  find_cached cm s c e =
      let (k, key, got) = checked_returns api (api.meta_key cm.meta) _ s c e in
      let (same, there) = from_cache_returns k (s.config_maps k) s c got in
      (key ∙ ap ok same, ap s.config_maps (sym same) ∙ there)
