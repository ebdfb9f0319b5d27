-- ===== src/Peer/Server.antt =====
-- What `handleConfigMap` relies on: how the API server keeps the peer ConfigMap, and when the
-- informer's cache shows what the server has.
use habitat_operator.Base.{String, true, Option, none, some, ok, err, ◌≡◌}
use habitat_operator.Types.{Habitat}
use habitat_operator.Kube.Objects.{ConfigMap}
use habitat_operator.Kube.Api.{Api}
use habitat_operator.Labels.{peer_file, config_map_name, new_config_map}
use habitat_operator.Peer.{entry}
use habitat_operator.State.{State, found, config_map}

-- `leader w namespace` is the address in the peer ConfigMap of a namespace, if there is one. A
-- ConfigMap is created only where there was none, and what was created or updated has the data that
-- were sent. That it exists already is answered without changing it, and so is a list of pods.
pub record PeerServer (api : Api) : Type 0 where
  pub leader : api.World → String → Option String
  pub leader-absent :
      (namespace : String) (cm c : ConfigMap) (w : api.World)
      → cm.meta.name ≡ config_map_name
      → (api.create_config_map namespace cm w).0 ≡ ok c
      → leader w namespace ≡ none
  pub leader-create :
      (namespace : String) (cm c : ConfigMap) (w : api.World)
      → cm.meta.name ≡ config_map_name
      → (api.create_config_map namespace cm w).0 ≡ ok c
      → leader (api.create_config_map namespace cm w).1 namespace
        ≡ some (entry peer_file cm.contents)
  pub leader-exists :
      (namespace : String) (cm : ConfigMap) (e : api.Failure) (w : api.World)
      → (api.create_config_map namespace cm w).0 ≡ err e
      → api.is_already_exists e ≡ true
      → leader (api.create_config_map namespace cm w).1 namespace ≡ leader w namespace
  pub leader-update :
      (namespace : String) (cm c : ConfigMap) (w : api.World)
      → cm.meta.name ≡ config_map_name
      → (api.update_config_map namespace cm w).0 ≡ ok c
      → leader (api.update_config_map namespace cm w).1 namespace
        ≡ some (entry peer_file cm.contents)
  pub leader-list :
      (namespace fs ls : String) (w : api.World)
      → leader (api.list_pods namespace fs ls w).1 namespace ≡ leader w namespace

-- A ConfigMap found in the cache under the key of a namespace's peer ConfigMap is that one, and
-- has the data that the server has.
abbrev pub IsSynced : {api : Api} → PeerServer api → State api → String → Type 0
IsSynced {api} server s namespace =
    (k : String) (cm : ConfigMap)
    → s.config_maps k ≡ found (config_map cm)
    → (ip : String) (h : Habitat) → h.meta.namespace ≡ namespace
    → api.meta_key (new_config_map ip h).meta ≡ ok k
    → (cm.meta.name ≡ config_map_name)
      × (cm.meta.namespace ≡ namespace)
      × (server.leader s.world namespace ≡ some (entry peer_file cm.contents))
