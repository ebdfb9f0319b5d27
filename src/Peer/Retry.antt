-- ===== src/Peer/Retry.antt =====
-- What `handleConfigMap` does where the ConfigMap exists already.
use habitat_operator.Base.{
  String, true, false, some, List, [], ◌∷◌, ok, err, returns, fails, ◌≡◌, refl, ◌∙◌, ap, assign,
}
use text.Mathlib.TextPositions.{eq_refl}
use habitat_operator.Types.{Habitat, habitat_label}
use habitat_operator.Kube.Objects.{Pod, ConfigMap}
use habitat_operator.Kube.Api.{Api}
use habitat_operator.Labels.{peer_file, new_config_map}
use habitat_operator.Peer.{
  entry, set_found, get_running_pods, find_config_map_in_cache, write_leader_ip, is_running,
  replace_leader, with_running_pods, handle_config_map,
}
use habitat_operator.Peer.Lookup.{entry-assign}
use habitat_operator.State.{State, library, found, config_map}

abbrev running_selector : Api → String
running_selector api = api.selector_from_set (("status.phase", "Running") ∷ [])

abbrev habitat_selector : Api → String
habitat_selector api = api.selector_from_set ((habitat_label, "true") ∷ [])

-- The server lists pods and answers that the ConfigMap exists; `k` is its key.
pub record Exists (api : Api) (h : Habitat) (p : Pod) (pods : List Pod) (k : String) (s : State api)
    (w : api.World) : Type 0 where
  pub middle : api.World
  pub listed :
      api.list_pods h.meta.namespace (running_selector api) (habitat_selector api) s.world
      ≡ (ok (p ∷ pods), middle)
  pub error : api.Failure
  pub refused :
      api.create_config_map h.meta.namespace (new_config_map p.pod_ip h) middle ≡ (err error, w)
  pub exists : api.is_already_exists error ≡ true
  pub key : api.meta_key (new_config_map p.pod_ip h).meta ≡ ok k

module _ (api : Api) (h : Habitat) (p : Pod) (pods : List Pod) (k : String) (cm : ConfigMap)
    (s : State api) (w : api.World) (x : Exists api h p pods k s w)
    (cached : s.config_maps k ≡ found (config_map cm)) where
  reaches :
      handle_config_map api h s
      ≡ replace_leader api h p.pod_ip
          (p ∷ pods)
          (record { key = k; object = cm })
          (record s { world = w })
  unfolding get_running_pods with_running_pods find_config_map_in_cache handle_config_map
  reaches = rw (x.listed, x.refused, x.exists, x.key, cached)

  -- The leader is still running: nothing is written, in the cluster or in the cache, and no event is
  -- recorded. The calls that list the pods and try to create the ConfigMap are the only ones.
  pub handle_config_map_stable :
      is_running (entry peer_file cm.contents) (p ∷ pods) ≡ true
      → handle_config_map api h s ≡ (returns tt, record s { world = w })
  handle_config_map_stable running = reaches ∙ rw running refl

  -- The leader is gone and the update fails: the error is returned, but the cached object has
  -- changed.
  failed_write :
      (m : List (String × String)) (f : api.Failure) (v : api.World)
      → is_running (entry peer_file cm.contents) (p ∷ pods) ≡ false
      → cm.contents ≡ some m
      → ((c : ConfigMap) → api.update_config_map cm.meta.namespace c w ≡ (err f, v))
      → handle_config_map api h s ≡ (
        fails (library f),
        record s {
          world = v;
          config_maps =
              set_found s.config_maps k
                (record cm { contents = some (assign peer_file p.pod_ip m) });
        },
      )
  unfolding write_leader_ip
  failed_write m f v gone full fail = reaches ∙ rw (gone, full, fail) refl

is_running_first : (p : Pod) (pods : List Pod) → is_running p.pod_ip (p ∷ pods) ≡ true
unfolding is_running
is_running_first p pods = rw (eq_refl p.pod_ip)

-- After an update that failed, the next attempt succeeds without writing: if the leader is gone,
-- its replacement cannot be written, and the attempt that follows sees the same answers, then that
-- attempt returns no error and sends no update, since the first one has already put the new leader
-- into the cached ConfigMap.
pub retry_after_failed_update :
    (api : Api) (h : Habitat) (p : Pod) (pods : List Pod) (k : String) (cm : ConfigMap)
    (s : State api) (w v u : api.World) (m : List (String × String)) (f : api.Failure)
    → Exists api h p pods k s w
    → s.config_maps k ≡ found (config_map cm)
    → is_running (entry peer_file cm.contents) (p ∷ pods) ≡ false
    → cm.contents ≡ some m
    → ((c : ConfigMap) → api.update_config_map cm.meta.namespace c w ≡ (err f, v))
    → Exists api h p pods k (handle_config_map api h s).1 u
    → ((handle_config_map api h s).0 ≡ fails (library f))
      × (handle_config_map api h (handle_config_map api h s).1
          ≡ (returns tt, record ((handle_config_map api h s).1) { world = u }))
retry_after_failed_update api h p pods k cm s w v u m f x cached gone full fail again =
    let first = failed_write api h p pods k cm s w x cached m f v gone full fail in
    let cm' = record cm { contents = some (assign peer_file p.pod_ip m) } in
    let here : set_found s.config_maps k cm' k ≡ found (config_map cm') = rw (eq_refl k) refl in
    let left = ap (λ r. r.1.config_maps k) first ∙ here in
    (
      ap (λ r. r.0) first,
      handle_config_map_stable api h p pods k cm' _ u again left
          (rw (entry-assign p.pod_ip m) (is_running_first p pods)),
    )
