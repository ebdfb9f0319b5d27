-- ===== src/Copies/Copier.antt =====
-- Deep copies of what a pointer points to, of the elements of a slice, and of one field after the
-- other.
use habitat_operator.Base.{ℕ, ◌≤◌, Option, none, some, List, [], ◌∷◌, ◌≡◌, refl, arith}
use habitat_operator.Memory.{Cells, Heap, Cmd, then_some, pure, load, ◌>>=◌, alloc}
use habitat_operator.Copies.Grows.{
  Within, IsWhole, Grows, Makes, Grows-trans, makes_pure, makes_bind, makes_alloc, IsStable, Owns,
  IsCopier, Owns-Grows, Owns-lower,
}

pub then_some_inv :
    {A B : Type 0} (o : Option A) (f : A → Option B) (b : B)
    → then_some o f ≡ some b
    → (a : A) × (o ≡ some a) × (f a ≡ some b)
then_some_inv none f b e = cc
then_some_inv (some a) f b e = (a, refl, e)

-- `if in.X != nil { *out = new(T); … }`: what a pointer that is not nil points to is copied. The
-- order of the addresses carries no meaning.
module _ {C A : Type 0} (project : C → Option A) (inject : A → C) (into : A → Cmd C A) where
  abbrev pub load_copy : ℕ → Cmd C (Option ℕ)
  load_copy p = load project p >>= λ a. into a >>= λ b. alloc (inject b) >>= λ q. pure (some q)

  abbrev pub copy_pointer : Option ℕ → Cmd C (Option ℕ)
  copy_pointer none = pure none
  copy_pointer (some p) = load_copy p

module _ {C A V : Type 0} (project : C → Option A) where
  abbrev pub view_address : (A → Cells C → Option V) → ℕ → Cells C → Option (Option V)
  view_address view p f =
      then_some (then_some (f p) project) λ a. then_some (view a f) λ v. some (some v)

  abbrev pub view_pointer : (A → Cells C → Option V) → Option ℕ → Cells C → Option (Option V)
  view_pointer view none f = some none
  view_pointer view (some p) f = view_address view p f

  module _ (view : A → Cells C → Option V) (stable : IsStable view) where
    pub pointer-IsStable : IsStable (view_pointer view)
    pointer-IsStable f g w none v e = e
    pointer-IsStable f g w (some p) v e =
        let (a, read, e1) = then_some_inv (then_some (f p) project) _ v e in
        let (c, there, e2) = then_some_inv (f p) project a read in
        let (x, seen, e3) = then_some_inv (view a f) _ v e1 in
        rw (w p c (omega arith) there, e2, stable f g w a x seen) e3

    pub pointer-IsCopier :
        (inject : A → C) (into : A → Cmd C A)
        → ((a : A) → project (inject a) ≡ some a)
        → IsCopier view into
        → IsCopier (view_pointer view) (copy_pointer project inject into)
    pointer-IsCopier inject into back copier none h v w e =
        makes_pure h none (λ b f. Owns (view_pointer view) h.next b v f) w (λ g m. e)
    pointer-IsCopier inject into back copier (some p) h v w e =
        let (a, read, e1) = then_some_inv (then_some (h.cell p) project) _ v e in
        let (x, seen, e3) = then_some_inv (view a h.cell) _ v e1 in
        let Q : Option ℕ → Cells C → Type 0 = λ b f. Owns (view_pointer view) h.next b v f in
        makes_bind h (load project p) _ (λ b f. b ≡ a) Q
          (a, h, rw read refl, record { later = omega arith; kept = λ q c n d. d; whole = w }, refl)
          λ b l g same.
            makes_bind l (into b) _ (λ b f. Owns view l.next b x f) Q
              (copier b l x g.whole (rw same (stable h.cell l.cell g.kept a x seen)))
              λ b' k g' own.
                makes_bind k (alloc (inject b')) _ (λ q f. (k.next ≤ q) × (f q ≡ some (inject b')))
                  Q (makes_alloc k (inject b') g'.whole)
                  λ q n g'' (high, there). makes_pure n (some q) Q g''.whole (λ f m.
                    rw
                      (
                        m q (inject b') (omega (arith, g.later, g'.later, high)) there,
                        back b',
                        Owns-lower view h.next l.next b' x n.cell g.later
                            (Owns-Grows view l.next b' x k n g'' own) f m,
                      )
                      e3)

-- `make([]T, len(in))`, and the loop that copies each element.
module _ {C A : Type 0} (into : A → Cmd C A) where
  abbrev pub copy_each : List A → Cmd C (List A)
  copy_each [] = pure []
  copy_each (a ∷ others) =
      let rest = copy_each others in into a >>= λ b. rest >>= λ bs. pure (b ∷ bs)

-- Reading, one thing after the other.
abbrev pub IsMonotone : {C B : Type 0} → (Cells C → Option B) → Type 0
IsMonotone {C} {B} o = (f g : Cells C) → Within 0 f g → (b : B) → o f ≡ some b → o g ≡ some b

pub IsMonotone-then :
    {C A B : Type 0} (o : Cells C → Option A) (k : A → Cells C → Option B)
    → IsMonotone o
    → ((a : A) → IsMonotone (k a))
    → IsMonotone (λ f. then_some (o f) λ a. k a f)
IsMonotone-then o k m n f g w b e =
    let (a, first, rest) = then_some_inv (o f) (λ a. k a f) b e in
    rw (m f g w a first) (n a f g w b rest)

pub IsMonotone-some : {C B : Type 0} (b : B) → IsMonotone {C = C} (λ f. some b)
IsMonotone-some b f g w c e = e

module _ {C A V : Type 0} (view : A → Cells C → Option V) where
  abbrev pub view_each : List A → Cells C → Option (List V)
  view_each [] f = some []
  view_each (a ∷ others) f =
      let rest = view_each others f in then_some (view a f) λ v. then_some rest λ vs. some (v ∷ vs)

  pub each-IsStable : IsStable view → IsStable (view_each)
  each-IsStable stable f g w [] v e = e
  each-IsStable stable f g w (a ∷ others) v e =
      IsMonotone-then (view a) (λ x h. then_some (view_each others h) λ xs. some (x ∷ xs))
        (λ p q u. stable p q u a)
        (λ x.
          IsMonotone-then (view_each others) (λ xs h. some (x ∷ xs))
            (λ p q u. each-IsStable stable p q u others) (λ xs. IsMonotone-some (x ∷ xs)))
        f g w v e

  -- One field of a struct, when others have been copied before it.
  pub copy_field :
      (into : A → Cmd C A) (a : A) (h l : Heap C) (v : V)
      → IsStable view
      → IsCopier view into
      → Grows h l
      → view a h.cell ≡ some v
      → Makes l (into a) (λ b f. Owns view h.next b v f)
  copy_field into a h l v stable copier g e =
      let (b, k, m, g', own) = copier a l v g.whole (stable h.cell l.cell g.kept a v e) in
      (b, k, m, g', Owns-lower view h.next l.next b v k.cell g.later own)

  -- What a field owns is there in the end.
  pub at_end :
      (lo : ℕ) (a : A) (v : V) (l n : Heap C) (g : Cells C)
      → Grows l n
      → Within lo n.cell g
      → Owns view lo a v l.cell
      → view a g ≡ some v
  at_end lo a v l n g grown w own = Owns-Grows view lo a v l n grown own g w

  pub Grows-refl : (h : Heap C) → IsWhole h → Grows h h
  Grows-refl h w = record { later = omega arith; kept = λ p c n e. e; whole = w }

  pub each-IsCopier :
      (into : A → Cmd C A)
      → IsStable view
      → IsCopier view into
      → IsCopier view_each (copy_each into)
  each-IsCopier into stable copier [] h v w e =
      makes_pure h [] (λ b f. Owns view_each h.next b v f) w (λ g m. e)
  each-IsCopier into stable copier (a ∷ others) h v w e =
      let (x, first, e1) = then_some_inv (view a h.cell) _ v e in
      let (xs, rest, e2) = then_some_inv (view_each others h.cell) _ v e1 in
      let Q : List A → Cells C → Type 0 = λ b f. Owns view_each h.next b v f in
      makes_bind h (into a) _ (λ b f. Owns view h.next b x f) Q (copier a h x w first)
        λ b l g own.
          makes_bind l (copy_each into others) _ (λ bs f. Owns view_each l.next bs xs f) Q
            (each-IsCopier into stable copier others l xs g.whole
              (each-IsStable stable h.cell l.cell g.kept others xs rest))
            λ bs k g' owns. makes_pure k (b ∷ bs) Q g'.whole (λ f m.
              rw
                (
                  at_end h.next b x l k f g' m own,
                  Owns-lower view_each h.next l.next bs xs k.cell g.later owns f m,
                )
                e2)

-- The next field of a struct is copied, when others have been.
pub field_then :
    {C A V B : Type 0} (view : A → Cells C → Option V) (into : A → Cmd C A)
    → IsStable view
    → IsCopier view into
    → (h l : Heap C) (a : A) (x : V) (k : A → Cmd C B) (R : B → Cells C → Type 0) → Grows h l
    → view a h.cell ≡ some x
    → ((b : A) (n : Heap C) → Grows h n → Grows l n → Owns view h.next b x n.cell → Makes n (k b) R)
    → Makes l (into a >>= k) R
field_then view into stable copier h l a x k R grown e next =
    makes_bind l (into a) k (λ b f. Owns view h.next b x f) R
      (copy_field view into a h l x stable copier grown e)
      λ b n g own. next b n (Grows-trans h l n grown g) g own
