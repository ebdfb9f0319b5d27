-- ===== src/Client.antt =====
-- pkg/client/clientset/versioned/typed/habitat/v1beta1: the client of Habitats (habitat.go), and the
-- fake one of the tests (fake/fake_habitat.go). A request is the calls on client-go's builder, in
-- order, and an action is a call of one of its constructors; what becomes of them is client-go's, and
-- a parameter.
pub mod Agrees
pub mod Replies
use habitat_operator.Base.{String, Bool, Option, List, [], ◌∷◌}
use habitat_operator.Kube.Objects.{Labels}
use habitat_operator.Types.{Habitat}

-- The types of options, and the text of a patch.
pub record Options : Type 1 where
  pub GetOptions : Type 0
  pub ListOptions : Type 0
  pub DeleteOptions : Type 0
  pub PatchType : Type 0
  pub Patch : Type 0
  -- `opts.Watch = true`, and `opts.Watch`
  pub watching : ListOptions → ListOptions
  pub is_watching : ListOptions → Bool
  -- testing.ExtractFromListOptions(opts), and `Matches`; none is a nil selector
  pub matches : ListOptions → Option (Labels → Bool)

abbrev pub habitats_resource : String × String × String
habitats_resource = ("habitat.sh", "v1beta1", "habitats")

abbrev pub habitats_kind : String × String × String
habitats_kind = ("habitat.sh", "v1beta1", "Habitat")

module _ (options : Options) where
  -- The calls on the builder of a request.
  pub data Builder : Type 0 where
    get_verb post_verb put_verb delete_verb : Builder
    patch_verb : options.PatchType → Builder
    in_namespace : String → Builder
    on_resource : String → Builder
    with_name : String → Builder
    with_subresources : List String → Builder
    with_get_options : options.GetOptions → Builder
    with_list_options : options.ListOptions → Builder
    with_habitat : Habitat → Builder
    with_delete_options : Option options.DeleteOptions → Builder
    with_patch : options.Patch → Builder

  -- The constructors of an action, with their arguments.
  pub data Action : Type 0 where
    new_get_action : String × String × String → String → String → Action
    new_list_action :
        String × String × String → String × String × String → String → options.ListOptions → Action
    new_watch_action : String × String × String → String → options.ListOptions → Action
    new_create_action : String × String × String → String → Habitat → Action
    new_update_action : String × String × String → String → Habitat → Action
    new_update_subresource_action : String × String × String → String → String → Habitat → Action
    new_delete_action : String × String × String → String → String → Action
    new_delete_collection_action : String × String × String → String → options.ListOptions → Action
    new_patch_subresource_action :
        String × String × String → String → String → options.Patch → List String → Action

  -- The methods of `HabitatInterface`, called with their arguments.
  pub data Method : Type 0 where
    get : String → options.GetOptions → Method
    list : options.ListOptions → Method
    watch : options.ListOptions → Method
    create : Habitat → Method
    update : Habitat → Method
    update_status : Habitat → Method
    delete : String → Option options.DeleteOptions → Method
    delete_collection : Option options.DeleteOptions → options.ListOptions → Method
    patch : String → options.PatchType → options.Patch → List String → Method

  -- habitat.go: the request of each method, on the client's namespace.
  unfoldable pub request : String → Method → List Builder
  request ns (get name opts) =
      get_verb
      ∷ in_namespace ns
      ∷ on_resource "habitats"
      ∷ with_name name
      ∷ with_get_options opts
      ∷ []
  request ns (list opts) =
      get_verb ∷ in_namespace ns ∷ on_resource "habitats" ∷ with_list_options opts ∷ []
  request ns (watch opts) =
      get_verb
      ∷ in_namespace ns
      ∷ on_resource "habitats"
      ∷ with_list_options (options.watching opts)
      ∷ []
  request ns (create hab) =
      post_verb ∷ in_namespace ns ∷ on_resource "habitats" ∷ with_habitat hab ∷ []
  request ns (update hab) =
      put_verb
      ∷ in_namespace ns
      ∷ on_resource "habitats"
      ∷ with_name hab.meta.name
      ∷ with_habitat hab
      ∷ []
  request ns (update_status hab) =
      put_verb
      ∷ in_namespace ns
      ∷ on_resource "habitats"
      ∷ with_name hab.meta.name
      ∷ with_subresources ("status" ∷ [])
      ∷ with_habitat hab
      ∷ []
  request ns (delete name opts) =
      delete_verb
      ∷ in_namespace ns
      ∷ on_resource "habitats"
      ∷ with_name name
      ∷ with_delete_options opts
      ∷ []
  request ns (delete_collection opts list_opts) =
      delete_verb
      ∷ in_namespace ns
      ∷ on_resource "habitats"
      ∷ with_list_options list_opts
      ∷ with_delete_options opts
      ∷ []
  request ns (patch name pt change subresources) =
      patch_verb pt
      ∷ in_namespace ns
      ∷ on_resource "habitats"
      ∷ with_subresources subresources
      ∷ with_name name
      ∷ with_patch change
      ∷ []

  -- fake_habitat.go: the action of each method.
  unfoldable pub action : String → Method → Action
  action ns (get name opts) = new_get_action habitats_resource ns name
  action ns (list opts) = new_list_action habitats_resource habitats_kind ns opts
  action ns (watch opts) = new_watch_action habitats_resource ns opts
  action ns (create hab) = new_create_action habitats_resource ns hab
  action ns (update hab) = new_update_action habitats_resource ns hab
  action ns (update_status hab) = new_update_subresource_action habitats_resource "status" ns hab
  action ns (delete name opts) = new_delete_action habitats_resource ns name
  action ns (delete_collection opts list_opts) =
      new_delete_collection_action habitats_resource ns list_opts
  action ns (patch name pt change subresources) =
      new_patch_subresource_action habitats_resource ns name change subresources
