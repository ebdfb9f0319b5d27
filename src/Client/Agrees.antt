-- ===== src/Client/Agrees.antt =====
-- What the server is asked to do, and what the fake client does, compared.
use habitat_operator.Base.{
  String, Bool, false, Option, none, some, List, [], ◌∷◌, ◌≡◌, if◌then◌else◌,
}
use habitat_operator.Kube.Objects.{Labels}
use habitat_operator.Types.{Habitat}
use habitat_operator.Client.{
  Options, Builder, get_verb, post_verb, put_verb, delete_verb, patch_verb, in_namespace,
  on_resource, with_name, with_subresources, with_get_options, with_list_options, with_habitat,
  with_delete_options, with_patch, Action, new_get_action, new_list_action, new_watch_action,
  new_create_action, new_update_action, new_update_subresource_action, new_delete_action,
  new_delete_collection_action, new_patch_subresource_action, Method, list,
}

-- What the server is asked to do. A list is of the Habitats that the options select.
pub data Verb : Type 0 where
  gets lists watches creates updates deletes deletes_collection patches : Verb

module _ (options : Options) where
  pub record Operation : Type 0 where
    pub verb : Verb
    pub namespace : String
    pub resource : String
    pub name : Option String
    pub subresources : List String
    pub object : Option Habitat
    pub change : Option options.Patch
    pub selected : Option (Option (Labels → Bool))

  -- What the calls on the builder have set. `list_options` are those of a list, a watch, or a
  -- collection.
  pub record Parts : Type 0 where
    pub method : Option (Builder options)
    pub namespace : String
    pub resource : String
    pub name : Option String
    pub subresources : List String
    pub list_options : Option options.ListOptions
    pub object : Option Habitat
    pub change : Option options.Patch

  abbrev none_set : Parts
  none_set = record {
    method = none;
    namespace = "";
    resource = "";
    name = none;
    subresources = [];
    list_options = none;
    object = none;
    change = none;
  }

  set : Builder options → Parts → Parts
  set (in_namespace ns) p = record p { namespace = ns }
  set (on_resource r) p = record p { resource = r }
  set (with_name n) p = record p { name = some n }
  set (with_subresources rs) p = record p { subresources = rs }
  set (with_list_options o) p = record p { list_options = some o }
  set (with_habitat hab) p = record p { object = some hab }
  set (with_patch c) p = record p { change = some c }
  set (with_get_options _) p = p
  set (with_delete_options _) p = p
  set b p = record p { method = some b }

  unfoldable pub parts : List (Builder options) → Parts
  unfolding set
  parts [] = none_set
  parts (b ∷ bs) = set b (parts bs)

  -- The server's rules: a GET with a name is a get; without one it is a watch if the options say so,
  -- and else a list. A DELETE without a name is one of a collection.
  abbrev get_or_list : Option String → Option options.ListOptions → Verb
  get_or_list (some _) o = gets
  get_or_list none none = lists
  get_or_list none (some o) = if options.is_watching o then watches else lists

  abbrev delete_or_collection : Option String → Verb
  delete_or_collection none = deletes_collection
  delete_or_collection (some _) = deletes

  abbrev verb_of : Parts → Option (Builder options) → Option Verb
  verb_of p (some get_verb) = some (get_or_list p.name p.list_options)
  verb_of p (some post_verb) = some creates
  verb_of p (some put_verb) = some updates
  verb_of p (some delete_verb) = some (delete_or_collection p.name)
  verb_of p (some (patch_verb _)) = some patches
  verb_of p _ = none

  -- The selection of labels that the options of a list make.
  abbrev selected_by : Option options.ListOptions → Option (Option (Labels → Bool))
  selected_by none = none
  selected_by (some o) = some (options.matches o)

  abbrev with_verb : Parts → Option Verb → Option Operation
  with_verb p none = none
  with_verb p (some v) = some (record {
    verb = v;
    namespace = p.namespace;
    resource = p.resource;
    name = p.name;
    subresources = p.subresources;
    object = p.object;
    change = p.change;
    selected = selected_by p.list_options;
  })

  unfoldable pub asked : List (Builder options) → Option Operation
  unfolding parts
  asked bs = let p = parts bs in with_verb p (verb_of p p.method)

  -- What the tracker of the fake client does for an action. An update goes to the object's name.
  abbrev plain :
      Verb
      → String
      → String
      → Option String
      → List String
      → Option Habitat
      → Option options.Patch
      → Option options.ListOptions
      → Option Operation
  plain v ns r n rs o c l = some (record {
    verb = v;
    namespace = ns;
    resource = r;
    name = n;
    subresources = rs;
    object = o;
    change = c;
    selected = selected_by l;
  })

  unfoldable pub done : Action options → Option Operation
  done (new_get_action r ns n) = plain gets ns r.2 (some n) [] none none none
  done (new_list_action r _ ns o) = plain lists ns r.2 none [] none none (some o)
  done (new_watch_action r ns o) = plain watches ns r.2 none [] none none (some o)
  done (new_create_action r ns hab) = plain creates ns r.2 none [] (some hab) none none
  done (new_update_action r ns hab) =
      plain updates ns r.2 (some hab.meta.name) [] (some hab) none none
  done (new_update_subresource_action r s ns hab) =
      plain updates ns r.2 (some hab.meta.name) (s ∷ []) (some hab) none none
  done (new_delete_action r ns n) = plain deletes ns r.2 (some n) [] none none none
  done (new_delete_collection_action r ns o) =
      plain deletes_collection ns r.2 none [] none none (some o)
  done (new_patch_subresource_action r ns n c rs) =
      plain patches ns r.2 (some n) rs none (some c) none

  -- `List` is not called with options that ask for a watch.
  abbrev pub ListsOnly : Method options → Type 0
  ListsOnly (list opts) = options.is_watching opts ≡ false
  ListsOnly _ = Unit
