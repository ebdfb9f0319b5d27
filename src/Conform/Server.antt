-- ===== src/Conform/Server.antt =====
-- What a server promises that keeps StatefulSets and the peer ConfigMap, and refuses nothing that can
-- be done.
use habitat_operator.Base.{String, Bool, true, false, Option, none, some, List, ok, err, ◌≡◌}
use habitat_operator.Types.{Habitat}
use habitat_operator.Kube.Objects.{Meta, Labels, Pod, ConfigMap}
use habitat_operator.Kube.Api.{Api, StoredStatefulSet}
use habitat_operator.Labels.{new_config_map}
use habitat_operator.Workload.{Sts}

-- One StatefulSet in a namespace. A server creates it where it is not there, and else answers that it
-- exists. What is there can be fetched and updated, if the updates are ones that it accepts; and
-- deletions of pods are accepted.
pub record ServesSet (api : Api) (namespace : String) (sts : Sts api) : Type 0 where
  pub is_there : api.World → Bool
  pub created :
      (w : api.World)
      → is_there w ≡ false
      → (t : StoredStatefulSet api.Template) × ((api.create_stateful_set namespace sts w).0 ≡ ok t)
  pub refused :
      (w : api.World)
      → is_there w ≡ true
      → (e : api.Failure) × ((api.create_stateful_set namespace sts w).0 ≡ err e)
        × (api.is_already_exists e ≡ true)
        × (is_there (api.create_stateful_set namespace sts w).1 ≡ true)
  pub got :
      (w : api.World)
      → is_there w ≡ true
      → (t : StoredStatefulSet api.Template) × ((api.get_stateful_set namespace sts.meta.name w).0
          ≡ ok t)
        × (is_there (api.get_stateful_set namespace sts.meta.name w).1 ≡ true)
  pub updated :
      (w : api.World)
      → is_there w ≡ true
      → (t : StoredStatefulSet api.Template) × (labels : Labels) × ((api.update_stateful_set
            namespace sts w).0
          ≡ ok t)
        × (t.match_labels ≡ some labels)
  pub deleted : (ns selector : String) (w : api.World) → (api.delete_pods ns selector w).0 ≡ ok tt

-- The peer ConfigMap of a namespace, by its meta data, which has the version. A server lists pods; it
-- creates the ConfigMap where it is not there, and else answers that it exists; and it accepts an
-- update of the version that it has. Calls on other objects leave the ConfigMap as it is.
pub record ServesPeers (api : Api) (h : Habitat) : Type 0 where
  pub held : api.World → Option Meta
  pub listed :
      (fs ls : String) (w : api.World)
      → (pods : List Pod) × ((api.list_pods h.meta.namespace fs ls w).0 ≡ ok pods)
        × (held (api.list_pods h.meta.namespace fs ls w).1 ≡ held w)
  pub created :
      (ip : String) (w : api.World)
      → held w ≡ none
      → (cm : ConfigMap) × ((api.create_config_map h.meta.namespace (new_config_map ip h) w).0
          ≡ ok cm)
  pub refused :
      (ip : String) (m : Meta) (w : api.World)
      → held w ≡ some m
      → (e : api.Failure) × ((api.create_config_map h.meta.namespace (new_config_map ip h) w).0
          ≡ err e)
        × (api.is_already_exists e ≡ true)
        × (held (api.create_config_map h.meta.namespace (new_config_map ip h) w).1 ≡ some m)
  pub updated :
      (cm : ConfigMap) (w : api.World)
      → held w ≡ some cm.meta
      → (c : ConfigMap) × ((api.update_config_map cm.meta.namespace cm w).0 ≡ ok c)
  pub after_secret : (ns name : String) (w : api.World) → held (api.get_secret ns name w).1 ≡ held w
  pub after_create :
      (ns : String) (sts : Sts api) (w : api.World)
      → held (api.create_stateful_set ns sts w).1 ≡ held w
  pub after_get :
      (ns name : String) (w : api.World) → held (api.get_stateful_set ns name w).1 ≡ held w
  pub after_update :
      (ns : String) (sts : Sts api) (w : api.World)
      → held (api.update_stateful_set ns sts w).1 ≡ held w
  pub after_delete :
      (ns selector : String) (w : api.World) → held (api.delete_pods ns selector w).1 ≡ held w
