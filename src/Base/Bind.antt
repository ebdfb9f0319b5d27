-- ===== src/Base/Bind.antt =====
-- What the end of a block says of its steps.
use mathlib.Core.Path.{◌≡◌, refl, ap}
use mathlib.Core.Logic.{◌≢◌}
use habitat_operator.Base.Calls.{
  Outcome, returns, fails, panics, Exec, continue, ◌>>=◌, caught, Result, ok, err,
}

pub ne-panics_of_returns : {E A : Type 0} (o : Outcome E A) (a : A) → o ≡ returns a → o ≢ panics
ne-panics_of_returns o a e p = cc

module _ {E S A B : Type 0} where
  pub continue_returns :
      (o : Outcome E A) (f : A → Exec E S B) (s : S) (b : B)
      → (continue o f s).0 ≡ returns b
      → (a : A) × (o ≡ returns a) × ((f a s).0 ≡ returns b)
  continue_returns (returns a) f s b h = (a, refl, h)
  continue_returns (fails x) f s b h = cc
  continue_returns panics f s b h = cc

  -- A block that returned has run its first action, which returned, and then the rest.
  pub returns-bind :
      (m : Exec E S A) (f : A → Exec E S B) (s : S) (b : B)
      → ((m >>= f) s).0 ≡ returns b
      → (a : A) × ((m s).0 ≡ returns a) × ((f a (m s).1).0 ≡ returns b)
  returns-bind m f s b h = continue_returns (m s).0 f (m s).1 b h

  -- A block does not panic if its first action does not, and what follows never does.
  pub bind-ne-panics :
      (o : Outcome E A) (f : A → Exec E S B) (s : S)
      → o ≢ panics
      → ((a : A) → (f a s).0 ≢ panics)
      → (continue o f s).0 ≢ panics
  bind-ne-panics (returns a) f s n k = k a
  bind-ne-panics (fails e) f s n k = λ p. cc
  bind-ne-panics panics f s n k = λ p. n refl

  -- The same, where what follows relies on what the first action returned.
  pub bind-ne-panics_of :
      (o : Outcome E A) (f : A → Exec E S B) (s : S)
      → o ≢ panics
      → ((a : A) → o ≡ returns a → (f a s).0 ≢ panics)
      → (continue o f s).0 ≢ panics
  bind-ne-panics_of (returns a) f s n k = k a refl
  bind-ne-panics_of (fails e) f s n k = λ p. cc
  bind-ne-panics_of panics f s n k = λ p. n refl

  -- An attempt panics only if the action does, or what is done with its result.
  pub attempt-ne-panics :
      (o : Outcome E A) (f : Result E A → Exec E S B) (s : S)
      → o ≢ panics
      → ((r : Result E A) → (f r s).0 ≢ panics)
      → (continue (caught o) f s).0 ≢ panics
  attempt-ne-panics (returns a) f s n k = k (ok a)
  attempt-ne-panics (fails e) f s n k = k (err e)
  attempt-ne-panics panics f s n k = λ p. n refl

  pub bind-of_returns :
      (o : Outcome E A) (f : A → Exec E S B) (s : S) (a : A)
      → o ≡ returns a
      → continue o f s ≡ f a s
  bind-of_returns o f s a e = ap (λ x. continue x f s) e
