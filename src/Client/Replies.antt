-- ===== src/Client/Replies.antt =====
-- pkg/client/clientset/versioned/typed/habitat/v1beta1: what the methods of the client of Habitats
-- (habitat.go) and of the fake one (fake/fake_habitat.go) return. What client-go makes of a request
-- and of an action is a parameter.
use habitat_operator.Base.{
  String, Bool, true, Option, none, some, List, [], ◌∷◌, Outcome, returns, panics, if◌then◌else◌,
}
use habitat_operator.Kube.Objects.{Labels}
use habitat_operator.Types.{Habitat}
use habitat_operator.Client.{
  Options, Builder, Action, Method, list, watch, delete, delete_collection, request, action,
}

pub record Library : Type 1 where
  pub Failure : Type 0
  -- watch.Interface
  pub Watch : Type 0
  -- v1.ListMeta, and its zero value
  pub ListMeta : Type 0
  pub no_list_meta : ListMeta
  -- The state of the server, or of the tracker of the fake client.
  pub World : Type 0

-- `&v1beta1.Habitat{}`
abbrev pub no_habitat : Habitat
no_habitat = record {
  meta = record {
    name = "";
    namespace = "";
    uid = "";
    resource_version = "";
    labels = [];
    owners = [];
  };
  spec = none;
  status = record { state = ""; message = "" };
  custom_version = none;
}

module _ (options : Options) (library : Library) where
  pub record HabitatList : Type 0 where
    pub list_meta : library.ListMeta
    pub items : List Habitat

  -- `&v1beta1.HabitatList{}`
  abbrev pub no_habitats : HabitatList
  no_habitats = record { list_meta = library.no_list_meta; items = [] }

  -- runtime.Object
  pub data Object : Type 0 where
    a_habitat : Habitat → Object
    a_habitat_list : HabitatList → Object
    another : Object

  -- What a method returns: its result, where it has one, and its error.
  pub data Reply : Type 0 where
    habitat_reply : Option Habitat → Option library.Failure → Reply
    list_reply : Option HabitatList → Option library.Failure → Reply
    watch_reply : Option library.Watch → Option library.Failure → Reply
    error_reply : Option library.Failure → Reply

  abbrev pub Returned : Type 0 → Type 0
  Returned A = (A × Option library.Failure) × library.World

  -- rest.Request: `Do().Into(result)`, by what `result` points to before and after, for the two types
  -- of result; `Watch()`; and `Do().Error()`.
  pub record Rest : Type 0 where
    pub into : List (Builder options) → Habitat → library.World → Returned Habitat
    pub into_list : List (Builder options) → HabitatList → library.World → Returned HabitatList
    pub watches : List (Builder options) → library.World → Returned (Option library.Watch)
    pub error : List (Builder options) → library.World → Option library.Failure × library.World

  -- testing.Fake: `Invokes`, with the object that it returns by default, and `InvokesWatch`
  pub record Fake : Type 0 where
    pub invokes : Action options → Object → library.World → Returned (Option Object)
    pub invokes_watch : Action options → library.World → Returned (Option library.Watch)

  abbrev pub replies_habitat : Returned Habitat → Reply × library.World
  replies_habitat r = (habitat_reply (some r.0.0) r.0.1, r.1)

  abbrev pub replies_list : Returned HabitatList → Reply × library.World
  replies_list r = (list_reply (some r.0.0) r.0.1, r.1)

  abbrev pub replies_watch : Returned (Option library.Watch) → Reply × library.World
  replies_watch r = (watch_reply r.0.0 r.0.1, r.1)

  abbrev pub replies_error : Option library.Failure × library.World → Reply × library.World
  replies_error r = (error_reply r.0, r.1)

  -- habitat.go: the methods
  unfoldable pub call : Rest → String → Method options → library.World → Reply × library.World
  call rest ns (list opts) w =
      replies_list (rest.into_list (request options ns (list opts)) no_habitats w)
  call rest ns (watch opts) w = replies_watch (rest.watches (request options ns (watch opts)) w)
  call rest ns (delete name opts) w =
      replies_error (rest.error (request options ns (delete name opts)) w)
  call rest ns (delete_collection opts list_opts) w =
      replies_error (rest.error (request options ns (delete_collection opts list_opts)) w)
  call rest ns m w = replies_habitat (rest.into (request options ns m) no_habitat w)

  -- `if label == nil { label = labels.Everything() }`
  abbrev pub label_matches : Option (Labels → Bool) → Labels → Bool
  label_matches none labels = true
  label_matches (some label) labels = label labels

  -- The loop of the fake `List` over the items of the tracker.
  abbrev pub matching : (Labels → Bool) → List Habitat → List Habitat
  matching label [] = []
  matching label (item ∷ items) =
      let rest = matching label items in if label item.meta.labels then item ∷ rest else rest

  abbrev pub only_matching : Option (Labels → Bool) → HabitatList → HabitatList
  only_matching label l = record {
    list_meta = l.list_meta;
    items = matching (label_matches label) l.items;
  }

  -- `if obj == nil { return nil, err }`, and `obj.(*v1beta1.Habitat)`, which panics on another type
  abbrev pub fake_habitat : Option Object → Option library.Failure → Outcome (Unit {0}) Reply
  fake_habitat none e = returns (habitat_reply none e)
  fake_habitat (some (a_habitat h)) e = returns (habitat_reply (some h) e)
  fake_habitat (some _) e = panics

  abbrev pub fake_list :
      options.ListOptions → Option Object → Option library.Failure → Outcome (Unit {0}) Reply
  fake_list opts none e = returns (list_reply none e)
  fake_list opts (some (a_habitat_list l)) e =
      returns (list_reply (some (only_matching (options.matches opts) l)) e)
  fake_list opts (some _) e = panics

  abbrev pub fakes_habitat : Returned (Option Object) → Outcome (Unit {0}) Reply × library.World
  fakes_habitat r = (fake_habitat r.0.0 r.0.1, r.1)

  abbrev pub fakes_list :
      options.ListOptions → Returned (Option Object) → Outcome (Unit {0}) Reply × library.World
  fakes_list opts r = (fake_list opts r.0.0 r.0.1, r.1)

  abbrev pub fakes_error : Returned (Option Object) → Outcome (Unit {0}) Reply × library.World
  fakes_error r = (returns (error_reply r.0.1), r.1)

  -- fake_habitat.go: the methods
  unfoldable pub fake_call :
      Fake → String → Method options → library.World → Outcome (Unit {0}) Reply × library.World
  fake_call fake ns (list opts) w =
      fakes_list opts (fake.invokes (action options ns (list opts)) (a_habitat_list no_habitats) w)
  fake_call fake ns (watch opts) w =
      let r = replies_watch (fake.invokes_watch (action options ns (watch opts)) w) in
      (returns r.0, r.1)
  fake_call fake ns (delete name opts) w =
      fakes_error (fake.invokes (action options ns (delete name opts)) (a_habitat no_habitat) w)
  fake_call fake ns (delete_collection opts list_opts) w = fakes_error (
      fake.invokes (action options ns (delete_collection opts list_opts))
        (a_habitat_list no_habitats) w)
  fake_call fake ns m w =
      fakes_habitat (fake.invokes (action options ns m) (a_habitat no_habitat) w)
