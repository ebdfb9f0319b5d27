-- ===== src/Tests/Listing.antt =====
-- The theorem on listers, at a cache of one Habitat.
use habitat_operator.Base.{
  String, ◌==◌, eq_iff, ◌<>◌, Bool, true, false, Option, none, some, [], Result, ok, returns, ◌≡◌,
  refl, ap, ◌∙◌,
}
use habitat_operator.Types.{Habitat}
use habitat_operator.State.{Object, habitat}
use habitat_operator.Listers.{Indexer, namespace_get}
use habitat_operator.Listers.Keys.{IsKeyed, HasNoSlash, namespace_get-named}
use habitat_operator.Tests.Habitats.{db}

abbrev at_key : Bool → Result String (Option Object)
at_key true = ok (some (habitat db))
at_key false = ok none

abbrev indexer : Indexer
indexer = record {
  Failure = String;
  get_by_key = λ k. at_key (k == "lab/db");
  list_all = λ selector. ([], none);
  list_all_by_namespace = λ namespace selector. ([], none);
}

is_db : (h : Habitat) (b : Bool) → at_key b ≡ ok (some (habitat h)) → (b ≡ true) × (db ≡ h)
is_db h true e = (refl, cc)
is_db h false e = cc

indexer-IsKeyed : IsKeyed indexer
indexer-IsKeyed k h e =
    let (same, it) = is_db h (k == "lab/db") e in
    (eq_iff k "lab/db").0 same ∙ ap (λ (x : Habitat). x.meta.namespace <> ("/" <> x.meta.name)) it

lab-HasNoSlash : HasNoSlash "lab"
lab-HasNoSlash = ((λ e. cc), ((λ e. cc), ((λ e. cc), tt)))

namespace_get-db : (namespace_get indexer "lab" "db") ≡ returns db
unfolding namespace_get
namespace_get-db = refl

namespace_get-named_example : ("lab" ≡ db.meta.namespace) × ("db" ≡ db.meta.name)
namespace_get-named_example =
    namespace_get-named indexer "lab" "db" db indexer-IsKeyed lab-HasNoSlash lab-HasNoSlash
      namespace_get-db
