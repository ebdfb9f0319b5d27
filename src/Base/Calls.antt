-- ===== src/Base/Calls.antt =====
-- Go's results: a value or an error, and for a whole call also a panic. A call reads and changes
-- a state, which is kept whatever the call's outcome.

-- The pair `(value, err)` of a Go call: exactly one of the two counts.
pub data Result {ℓ κ} (E : Type ℓ) (A : Type κ) : Type (ℓ ⊔ κ) where
  ok : A → Result E A
  err : E → Result E A

-- How a call ends.
pub data Outcome {ℓ κ} (E : Type ℓ) (A : Type κ) : Type (ℓ ⊔ κ) where
  returns : A → Outcome E A
  fails : E → Outcome E A
  panics : Outcome E A

abbrev pub Exec : Type 0 → Type 0 → Type 0 → Type 0
Exec E S A = S → Outcome E A × S

module _ {E S A : Type 0} where
  abbrev pub pure : A → Exec E S A
  pure a s = (returns a, s)

  abbrev pub throw : E → Exec E S A
  throw e s = (fails e, s)

  abbrev pub panic : Exec E S A
  panic s = (panics, s)

module _ {E S A B : Type 0} where
  abbrev pub continue : Outcome E A → (A → Exec E S B) → Exec E S B
  continue (returns a) f s = f a s
  continue (fails e) f s = (fails e, s)
  continue panics f s = (panics, s)

  infixl 10 ◌>>=◌ ◌>>◌
  abbrev pub ◌>>=◌ : Exec E S A → (A → Exec E S B) → Exec E S B
  ◌>>=◌ m f s = let r = m s in continue r.0 f r.1

  abbrev pub ◌>>◌ : Exec E S A → Exec E S B → Exec E S B
  m >> n = m >>= λ _. n

-- `if err := call; err != nil { … }`: the error becomes a value, and a panic goes on.
abbrev pub caught {ℓ} : {E A : Type ℓ} → Outcome E A → Outcome E (Result E A)
caught (returns a) = returns (ok a)
caught (fails e) = returns (err e)
caught panics = panics

abbrev pub attempt : {E S A : Type 0} → Exec E S A → Exec E S (Result E A)
attempt m s = let r = m s in (caught r.0, r.1)
