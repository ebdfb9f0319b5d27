-- ===== src/Registration.antt =====
-- pkg/controller/v1beta2: which handlers the controller registers with which informer
-- (`cacheHabitats`, `cacheConfigMaps`, `watchPods`; `cacheStatefulSets` of stateful_sets.go), and how
-- an informer calls them.
pub mod Delivery
use habitat_operator.Base.{String, List, [], ◌∷◌}
use habitat_operator.Kube.Objects.{Labels}
use habitat_operator.Types.{habitat_label}
use habitat_operator.Kube.Api.{Api}
use habitat_operator.State.{Act, Object}
use habitat_operator.Handlers.{
  handle_hab_add, handle_hab_update, handle_hab_delete, handle_cm_add, handle_cm_update,
  handle_cm_delete, handle_pod_add, handle_pod_update, handle_pod_delete, handle_sts_add,
  handle_sts_update, handle_sts_delete,
}

-- The informers of the controller.
pub data Informer : Type 0 where
  habitats stateful_sets config_maps pods : Informer

-- What an informer reports of an object: `OnAdd`, `OnUpdate`, `OnDelete`.
pub data Event : Type 0 where
  added : Object → Event
  updated : Object → Object → Event
  deleted : Object → Event

-- metav1.ListOptions, as far as the controller sets it.
pub record ListOptions : Type 0 where
  pub field_selector : String
  pub label_selector : String

-- utils.go: `listOptions`. `selector_from_set` is `String` of labels.SelectorFromSet.
abbrev pub list_options : (Labels → String) → ListOptions → ListOptions
list_options selector_from_set options = record options {
  label_selector = selector_from_set ((habitat_label, "true") ∷ []);
}

-- cache.NewFilteredListWatchFromClient: the resource, the namespace, and what changes the options.
pub record ListWatch : Type 0 where
  pub resource : String
  pub namespace : String
  pub options_modifier : ListOptions → ListOptions

abbrev pub pod_source : (Labels → String) → String → ListWatch
pod_source selector_from_set namespace = record {
  resource = "Pods";
  namespace = namespace;
  options_modifier = list_options selector_from_set;
}

module _ (api : Api) where
  -- `cache.ResourceEventHandlerFuncs`
  pub record HandlerFuncs : Type 0 where
    pub add_func : Object → Act api (Unit {0})
    pub update_func : Object → Object → Act api (Unit {0})
    pub delete_func : Object → Act api (Unit {0})

  abbrev pub cache_habitats : HandlerFuncs
  cache_habitats = record {
    add_func = handle_hab_add api;
    update_func = handle_hab_update api;
    delete_func = handle_hab_delete api;
  }

  abbrev pub cache_stateful_sets : HandlerFuncs
  cache_stateful_sets = record {
    add_func = handle_sts_add api;
    update_func = handle_sts_update api;
    delete_func = handle_sts_delete api;
  }

  -- `store` is what the Habitats' informer lists, which the handlers of ConfigMaps go through.
  abbrev pub cache_config_maps : List Object → HandlerFuncs
  cache_config_maps store = record {
    add_func = handle_cm_add api store;
    update_func = handle_cm_update api store;
    delete_func = handle_cm_delete api store;
  }

  abbrev pub watch_pods : HandlerFuncs
  watch_pods = record {
    add_func = handle_pod_add api;
    update_func = handle_pod_update api;
    delete_func = handle_pod_delete api;
  }

  -- What `Run` has registered when it starts the informers.
  unfoldable pub registered : List Object → Informer → HandlerFuncs
  registered store habitats = cache_habitats
  registered store stateful_sets = cache_stateful_sets
  registered store config_maps = cache_config_maps store
  registered store pods = watch_pods

  -- The informer calls the function that is registered for the event.
  unfoldable pub deliver : HandlerFuncs → Event → Act api (Unit {0})
  deliver funcs (added o) = funcs.add_func o
  deliver funcs (updated o n) = funcs.update_func o n
  deliver funcs (deleted o) = funcs.delete_func o
