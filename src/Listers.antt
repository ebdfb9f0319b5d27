-- ===== src/Listers.antt =====
-- pkg/client/listers/habitat/v1beta1/habitat.go: reading Habitats from an informer's cache. The
-- indexer is client-go's, and a parameter.
pub mod Keys
use habitat_operator.Base.{
  String, ◌<>◌, Bool, Option, none, some, List, [], ◌∷◌, Result, ok, err, Outcome, returns, fails,
  panics,
}
use habitat_operator.Kube.Objects.{Labels}
use habitat_operator.Types.{Habitat}
use habitat_operator.State.{Object, habitat}

-- cache.Indexer, with what ListAll and ListAllByNamespace hand to their function, in order, and the
-- error that they return. `get_by_key` gives none for what does not exist.
pub record Indexer : Type 1 where
  pub Failure : Type 0
  pub get_by_key : String → Result Failure (Option Object)
  pub list_all : (Labels → Bool) → List Object × Option Failure
  pub list_all_by_namespace : String → (Labels → Bool) → List Object × Option Failure

-- An error of the indexer, or `errors.NewNotFound` for a resource and a name.
pub data ListerError (F : Type 0) : Type 0 where
  failed : F → ListerError F
  not_found : String → String → ListerError F

-- `obj.(*v1beta1.Habitat)`, which panics on an object of another type.
abbrev pub as_habitat : {E : Type 0} → Object → Outcome E Habitat
as_habitat (habitat h) = returns h
as_habitat _ = panics

abbrev pub and_rest :
    {E : Type 0} → Outcome E Habitat → Outcome E (List Habitat) → Outcome E (List Habitat)
and_rest (returns h) (returns hs) = returns (h ∷ hs)
and_rest (returns h) other = other
and_rest (fails e) _ = fails e
and_rest panics _ = panics

-- `ret = append(ret, m.(*v1beta1.Habitat))`, for each
abbrev pub append_each : {E : Type 0} → List Object → Outcome E (List Habitat)
append_each [] = returns []
append_each (o ∷ os) = let rest = append_each os in and_rest (as_habitat o) rest

module _ (indexer : Indexer) where
  abbrev pub with_error :
      {E : Type 0}
      → Outcome E (List Habitat)
      → Option indexer.Failure
      → Outcome E (List Habitat × Option indexer.Failure)
  with_error (returns hs) e = returns (hs, e)
  with_error (fails x) e = fails x
  with_error panics e = panics

  -- What is listed so far is returned beside the error.
  unfoldable pub list : (Labels → Bool) → Outcome (Unit {0}) (List Habitat × Option indexer.Failure)
  list selector = let r = indexer.list_all selector in with_error (append_each r.0) r.1

  unfoldable pub namespace_list :
      String → (Labels → Bool) → Outcome (Unit {0}) (List Habitat × Option indexer.Failure)
  namespace_list namespace selector =
      let r = indexer.list_all_by_namespace namespace selector in with_error (append_each r.0) r.1

  abbrev pub got :
      String
      → Result indexer.Failure (Option Object)
      → Outcome (ListerError indexer.Failure) Habitat
  got name (err e) = fails (failed e)
  got name (ok none) = fails (not_found "habitat" name)
  got name (ok (some o)) = as_habitat o

  unfoldable pub namespace_get : String → String → Outcome (ListerError indexer.Failure) Habitat
  namespace_get namespace name = got name (indexer.get_by_key (namespace <> ("/" <> name)))
