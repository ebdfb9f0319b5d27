-- ===== src/Kube/Api.antt =====
-- What the controller takes from the Kubernetes libraries, as the parameter of the model: the API
-- server's calls on an unknown state of the cluster, their errors, and the pure functions called.
use habitat_operator.Base.{String, Bool, List, Option, Result}
use habitat_operator.Kube.Objects.{Labels, Meta, Pod, ConfigMap, StatefulSet}

-- A StatefulSet as the server returns it, its template with the fields that the server fills in.
pub record StoredStatefulSet (T : Type 0) : Type 0 where
  pub name : String
  pub namespace : String
  pub match_labels : Option Labels
  pub template : T

pub record Api : Type 1 where
  -- The state of the cluster, which every call may change.
  pub World : Type 0
  -- Errors of the libraries; `describe` is their method `Error`.
  pub Failure : Type 0
  pub describe : Failure → String
  -- apierrors.IsAlreadyExists
  pub is_already_exists : Failure → Bool
  -- resource.ParseQuantity
  pub Quantity : Type 0
  pub parse_quantity : String → Result Failure Quantity
  -- Pod templates as the server stores them, and `reflect.DeepEqual` on them.
  pub Template : Type 0
  pub deep_equal : Template → Template → Bool
  -- fields.SelectorFromSet(set).String()
  pub selector_from_set : Labels → String
  -- cache.DeletionHandlingMetaNamespaceKeyFunc, on an object that is no tombstone
  pub meta_key : Meta → Result Failure String
  -- The calls of the clientset; the first argument is the namespace.
  pub get_secret : String → String → World → Result Failure Meta × World
  pub create_stateful_set :
      String → StatefulSet Quantity → World → Result Failure (StoredStatefulSet Template) × World
  pub get_stateful_set :
      String → String → World → Result Failure (StoredStatefulSet Template) × World
  pub update_stateful_set :
      String → StatefulSet Quantity → World → Result Failure (StoredStatefulSet Template) × World
  -- The field selector, then the label selector.
  pub list_pods : String → String → String → World → Result Failure (List Pod) × World
  pub delete_pods : String → String → World → Result Failure (Unit {0}) × World
  pub create_config_map : String → ConfigMap → World → Result Failure ConfigMap × World
  pub update_config_map : String → ConfigMap → World → Result Failure ConfigMap × World
