-- ===== src/Memory.antt =====
-- Memory: a heap of cells, and commands on it. `none` is a fault, such as a read through a dangling
-- address.
use Prim.Native.Nat.{compare, Ordering}
use habitat_operator.Base.{ℕ, suc, Bool, true, false, Option, none, some, if◌then◌else◌}

abbrev pub eqb : ℕ → ℕ → Bool
eqb a b = elim (compare a b) [ Ordering.eq ↦ true | _ ↦ false ]

abbrev pub Cells : Type 0 → Type 0
Cells C = ℕ → Option C

pub record Heap (C : Type 0) : Type 0 where
  pub next : ℕ
  pub cell : Cells C

abbrev pub Cmd : Type 0 → Type 0 → Type 0
Cmd C A = Heap C → Option (A × Heap C)

abbrev pub then_some {ℓ κ} : {A : Type ℓ} {B : Type κ} → Option A → (A → Option B) → Option B
then_some none f = none
then_some (some a) f = f a

module _ {C A : Type 0} where
  abbrev pub pure : A → Cmd C A
  pure a h = some (a, h)

  -- The value at an address, of the type that the program reads there.
  abbrev pub load : (C → Option A) → ℕ → Cmd C A
  load project p h = then_some (then_some (h.cell p) project) λ a. some (a, h)

module _ {C A B : Type 0} where
  infixl 10 ◌>>=◌
  abbrev pub ◌>>=◌ : Cmd C A → (A → Cmd C B) → Cmd C B
  m >>= k = λ h. then_some (m h) λ r. k r.0 r.1

abbrev pub put : {C : Type 0} → Cells C → ℕ → C → Cells C
put f p c q = if eqb p q then some c else f q

-- `new`, with the value that is written there.
abbrev pub alloc : {C : Type 0} → C → Cmd C ℕ
alloc c h = some (h.next, record { next = suc h.next; cell = put h.cell h.next c })

-- `*p = c`
abbrev pub store : {C : Type 0} → ℕ → C → Cmd C (Unit {0})
store p c h = some (tt, record h { cell = put h.cell p c })
