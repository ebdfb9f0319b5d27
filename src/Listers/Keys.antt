-- ===== src/Listers/Keys.antt =====
-- The keys of a cache, and what a lister finds under them.
use Prim.Native.Char.{Char}
use Prim.Native.String.{[], ◌∷◌}
use Prim.Native.String.append
use habitat_operator.Base.{
  String, ◌<>◌, Option, none, some, Result, ok, err, returns, ◌≡◌, ◌≢◌, refl, sym, ◌∙◌, ap,
}
use habitat_operator.Types.{Habitat}
use habitat_operator.State.{Object, habitat}
use habitat_operator.Listers.{Indexer, got, namespace_get}

-- The text has no slash, as a namespace has none.
abbrev pub HasNoSlash : String → Type 0
HasNoSlash [] = Unit
HasNoSlash (c ∷ s) = (c ≢ "/") × HasNoSlash s

slash : (x : String) → "/" <> x ≡ "/" ∷ x
slash x = append.cons "/" [] x ∙ ap (◌∷◌ "/") (append.nil x)

heads : (c d : Char) (s t : String) → c ∷ s ≡ d ∷ t → (c ≡ d) × (s ≡ t)
heads c d s t e = (cc, cc)

-- A key is read in one way, if namespaces have no slash.
pub key_parts :
    (a b x y : String)
    → HasNoSlash a
    → HasNoSlash b
    → a <> ("/" <> x) ≡ b <> ("/" <> y)
    → (a ≡ b) × (x ≡ y)
key_parts [] [] x y na nb e =
    let (_, tail) =
      heads "/" "/" x y (sym (slash x) ∙ sym (append.nil _) ∙ e ∙ append.nil _ ∙ slash y) in
    (refl, tail)
key_parts [] (d ∷ b) x y na nb e =
    let (head, _) =
      heads "/" d x (b <> ("/" <> y))
        (sym (slash x) ∙ sym (append.nil _) ∙ e ∙ append.cons d b _) in
    absurd (nb.0 (sym head))
key_parts (c ∷ a) [] x y na nb e =
    let (head, _) =
      heads c "/" (a <> ("/" <> x)) y (sym (append.cons c a _) ∙ e ∙ append.nil _ ∙ slash y) in
    absurd (na.0 head)
key_parts (c ∷ a) (d ∷ b) x y na nb e =
    let (head, tail) =
      heads c d (a <> ("/" <> x)) (b <> ("/" <> y))
        (sym (append.cons c a _) ∙ e ∙ append.cons d b _) in
    let (same, rest) = key_parts a b x y na.1 nb.1 tail in (cc (head, same), rest)

module _ (indexer : Indexer) where
  -- The cache keys a Habitat by its namespace and name.
  abbrev pub IsKeyed : Type 0
  IsKeyed =
      (k : String) (h : Habitat)
      → indexer.get_by_key k ≡ ok (some (habitat h))
      → k ≡ h.meta.namespace <> ("/" <> h.meta.name)

  got_habitat :
      (name : String) (r : Result indexer.Failure (Option Object)) (h : Habitat)
      → got indexer name r ≡ returns h
      → r ≡ ok (some (habitat h))
  got_habitat name (err e) h x = cc
  got_habitat name (ok none) h x = cc
  got_habitat name (ok (some (habitat g))) h x = cc
  got_habitat name (ok (some _)) h x = cc

  -- A Habitat that the lister of a namespace returns for a name has that namespace and that name, if
  -- the cache keys Habitats by these and neither namespace has a slash.
  pub namespace_get-named :
      (namespace name : String) (h : Habitat)
      → IsKeyed
      → HasNoSlash namespace
      → HasNoSlash h.meta.namespace
      → namespace_get indexer namespace name ≡ returns h
      → (namespace ≡ h.meta.namespace) × (name ≡ h.meta.name)
  unfolding namespace_get
  namespace_get-named namespace name h keyed clean clean' e =
      key_parts namespace h.meta.namespace name h.meta.name clean clean'
        (keyed (namespace <> ("/" <> name)) h (got_habitat name _ h e))
