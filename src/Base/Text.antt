-- ===== src/Base/Text.antt =====
-- Text: tests on keys, and Go's string-keyed maps as association lists.
use Prim.Native.String.{String, ◌++◌ as ◌<>◌}
use mathlib.Core.Path.{◌≡◌, refl, sym, ◌∙◌}
use mathlib.Core.Option.{Option, none, some}
use mathlib.Core.List.{List, [], ◌∷◌}
use text.Mathlib.Text.{◌==◌}
use text.Mathlib.TextPositions.{eq_refl}
use text.Mathlib.TextEquality.{eq_iff}
use native.Mathlib.Omega.{arith}
use mathlib.Core.Logic.{◌≢◌, ◌⊎◌, inl, inr}
use mathlib.Core.Bool.{Bool, true, false}
use habitat_operator.Base.Tests.{if◌then◌else◌, Bool-cases}

-- `fmt.Sprintf("%s/%s", a, b)` and the like
abbrev pub join : String → String → String → String
join sep a b = a <> (sep <> b)

unequal : (x y : String) → x ≢ y → (x == y) ≡ false
unequal x y d = ground (arith, eq_iff x y)

module _ {ℓ} {V : Type ℓ} where
  -- `v, ok := m[k]`
  abbrev pub lookup : String → List (String × V) → Option V
  lookup k [] = none
  lookup k ((j, v) ∷ m) = if j == k then some v else lookup k m

  -- The entries of the other keys.
  without : String → List (String × V) → List (String × V)
  without k [] = []
  without k (e ∷ m) = let others = without k m in if e.0 == k then others else e ∷ others

  -- `m[k] = v`; Go's maps have no order.
  unfoldable pub assign : String → V → List (String × V) → List (String × V)
  unfolding without
  assign k v m = (k, v) ∷ without k m

  pub lookup-assign :
      (k : String) (v : V) (m : List (String × V)) → lookup k (assign k v m) ≡ some v
  unfolding assign
  lookup-assign k v m = rw (eq_refl k) refl

  same_test :
      (b : Bool) (v : V) (o p : Option V)
      → o ≡ p
      → (if b then some v else o) ≡ (if b then some v else p)
  same_test true v o p e = refl
  same_test false v o p e = e

  lookup-without :
      (k j : String) (m : List (String × V)) → j ≢ k → lookup j (without k m) ≡ lookup j m
  unfolding without
  lookup-without k j [] ne = refl
  lookup-without k j (e ∷ m) ne = elim (Bool-cases (e.0 == k)) [
    | inl same ↦
        rw (same, unequal e.0 j (λ f. ne (sym f ∙ (eq_iff e.0 k).0 same))) (lookup-without k j m ne)
    | inr other ↦ rw other (same_test (e.0 == j) e.1 _ _ (lookup-without k j m ne))
  ]

  pub lookup-assign_ne :
      (k j : String) (v : V) (m : List (String × V)) → j ≢ k → lookup j (assign k v m) ≡ lookup j m
  unfolding assign
  lookup-assign_ne k j v m ne = rw (unequal k j (λ f. ne (sym f))) (lookup-without k j m ne)

-- `m[k]`, which is "" for a missing key
abbrev pub or_empty : Option String → String
or_empty none = ""
or_empty (some v) = v

abbrev pub get_or_empty : String → List (String × String) → String
get_or_empty k m = or_empty (lookup k m)

-- Whether two texts are the same.
pub same-or-not : (x y : String) → (x ≡ y) ⊎ (x ≢ y)
same-or-not x y = elim (Bool-cases (x == y)) [
  | inl same ↦ inl ((eq_iff x y).0 same)
  | inr differ ↦ inr (λ e. ground (arith, eq_iff x y))
]
