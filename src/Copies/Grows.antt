-- ===== src/Copies/Grows.antt =====
-- What a deep copy is: it reads as the original did, and it stands on addresses of its own.
use habitat_operator.Base.{ℕ, suc, ◌≤◌, Option, none, some, ◌≡◌, refl, ap, ◌∙◌, arith}
use habitat_operator.Memory.{Cells, Heap, Cmd, then_some, pure, ◌>>=◌, put, alloc}

module _ {C : Type 0} where
  -- What was there is there, with the same content.
  abbrev pub Within : ℕ → Cells C → Cells C → Type 0
  Within lo f g = (p : ℕ) (c : C) → lo ≤ p → f p ≡ some c → g p ≡ some c

  -- Nothing stands at an address that was not given out.
  abbrev pub IsWhole : Heap C → Type 0
  IsWhole h = (p : ℕ) → h.next ≤ p → h.cell p ≡ none

  pub record Grows (h k : Heap C) : Type 0 where
    pub later : h.next ≤ k.next
    pub kept : Within 0 h.cell k.cell
    pub whole : IsWhole k

  -- The command ends in a heap that has grown, with a result that satisfies `Q`.
  abbrev pub Makes : {B : Type 0} → Heap C → Cmd C B → (B → Cells C → Type 0) → Type 0
  Makes {B} h m Q = (b : B) × (k : Heap C) × (m h ≡ some (b, k)) × Grows h k × Q b k.cell

  pub Grows-trans : (h k l : Heap C) → Grows h k → Grows k l → Grows h l
  Grows-trans h k l a b = record {
    later = omega (arith, a.later, b.later);
    kept = λ p c n e. b.kept p c n (a.kept p c n e);
    whole = b.whole;
  }

  pub makes_pure :
      {B : Type 0} (h : Heap C) (b : B) (Q : B → Cells C → Type 0)
      → IsWhole h
      → Q b h.cell
      → Makes h (pure b) Q
  makes_pure h b Q w q =
      (b, h, refl, record { later = omega arith; kept = λ p c n e. e; whole = w }, q)

  pub makes_bind :
      {A B : Type 0} (h : Heap C) (m : Cmd C A) (k : A → Cmd C B) (Q : A → Cells C → Type 0)
      (R : B → Cells C → Type 0)
      → Makes h m Q
      → ((a : A) (l : Heap C) → Grows h l → Q a l.cell → Makes l (k a) R)
      → Makes h (m >>= k) R
  makes_bind h m k Q R (a, l, e, g, q) next =
      let (b, n, f, g', r) = next a l g q in
      (b, n, ap (λ o. then_some o λ x. k x.0 x.1) e ∙ f, Grows-trans h l n g g', r)

  pub makes_alloc :
      (h : Heap C) (c : C) → IsWhole h → Makes h (alloc c) (λ p f. (h.next ≤ p) × (f p ≡ some c))
  makes_alloc h c w = (
    h.next,
    record { next = suc h.next; cell = put h.cell h.next c },
    refl,
    record { later = omega arith; kept = λ p d n e. others p d e; whole = λ p n. beyond p n },
    (omega arith, ground arith),
  )
    where
      others : (p : ℕ) (d : C) → h.cell p ≡ some d → put h.cell h.next c p ≡ some d
      others p d e = ground (arith, w p)

      beyond : (p : ℕ) → suc h.next ≤ p → put h.cell h.next c p ≡ none
      beyond p n = ground (arith, w p)

module _ {C A V : Type 0} (view : A → Cells C → Option V) where
  -- What can be read can be read wherever the same things are.
  abbrev pub IsStable : Type 0
  IsStable =
      (f g : Cells C) → Within 0 f g → (a : A) (v : V) → view a f ≡ some v → view a g ≡ some v

  -- `a` reads as `v`, whatever stands at the addresses below `lo`.
  abbrev pub Owns : ℕ → A → V → Cells C → Type 0
  Owns lo a v f = (g : Cells C) → Within lo f g → view a g ≡ some v

  -- A deep copy of whatever reads as a value ends with its like, on addresses that were not given
  -- out before.
  abbrev pub IsCopier : (A → Cmd C A) → Type 0
  IsCopier into =
      (a : A) (h : Heap C) (v : V)
      → IsWhole h
      → view a h.cell ≡ some v
      → Makes h (into a) (λ b f. Owns h.next b v f)

  pub Owns-Grows :
      (lo : ℕ) (a : A) (v : V) (h k : Heap C) → Grows h k → Owns lo a v h.cell → Owns lo a v k.cell
  Owns-Grows lo a v h k g o f w = o f (λ p c n e. w p c n (g.kept p c (omega arith) e))

  pub Owns-lower :
      (lo hi : ℕ) (a : A) (v : V) (f : Cells C) → lo ≤ hi → Owns hi a v f → Owns lo a v f
  Owns-lower lo hi a v f n o g w = o g (λ p c m e. w p c (omega (arith, n, m)) e)

-- A struct without pointers: `*out = *in`.
module _ {C A : Type 0} where
  abbrev pub view_plain : A → Cells C → Option A
  view_plain a f = some a

  pub plain-IsCopier : IsCopier view_plain (pure {C = C})
  plain-IsCopier a h v w e = makes_pure h a (λ b f. Owns view_plain h.next b v f) w (λ g m. e)
