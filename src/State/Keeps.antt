-- ===== src/State/Keeps.antt =====
-- What actions leave as it is: a rule for each way to build an action.
use habitat_operator.Base.{
  Bool, true, false, Result, ok, err, Exec, Outcome, returns, fails, panics, continue, ◌>>=◌, ◌≡◌,
  refl, ◌∙◌, if◌then◌else◌,
}
use habitat_operator.Kube.Api.{Api}
use habitat_operator.State.{Act, State, try, check}

-- The action changes nothing that `f` shows.
abbrev pub Keeps : {E S A X : Type 0} → (S → X) → Exec E S A → Type 0
Keeps {S} f m = (s : S) → f (m s).1 ≡ f s

module _ {E S X : Type 0} (f : S → X) where
  pub Keeps-continue :
      {A B : Type 0} (o : Outcome E A) (k : A → Exec E S B)
      → ((a : A) → Keeps f (k a))
      → (s : S) → f (continue o k s).1 ≡ f s
  Keeps-continue (returns a) k h s = h a s
  Keeps-continue (fails e) k h s = refl
  Keeps-continue panics k h s = refl

  pub Keeps-bind :
      {A B : Type 0} (m : Exec E S A) (k : A → Exec E S B)
      → Keeps f m
      → ((a : A) → Keeps f (k a))
      → Keeps f (m >>= k)
  Keeps-bind m k h g s = Keeps-continue (m s).0 k g (m s).1 ∙ h s

  pub Keeps-if :
      {A : Type 0} (b : Bool) (m n : Exec E S A)
      → Keeps f m
      → Keeps f n
      → Keeps f (if b then m else n)
  Keeps-if true m n h k = h
  Keeps-if false m n h k = k

-- A call whose error is returned, and what follows.
module _ (api : Api) {X : Type 0} (f : State api → X) where
  pub Keeps-call :
      {A B : Type 0} (c : api.World → Result api.Failure A × api.World) (k : A → Act api B)
      → ((s : State api) → f (record s { world = (c s.world).1 }) ≡ f s)
      → ((a : A) → Keeps f (k a))
      → Keeps f (try api c >>= λ r. check api r >>= k)
  Keeps-call c k called h s = answered (c s.world).0
    where
      t : State api
      t = record s { world = (c s.world).1 }

      answered : (r : Result api.Failure _) → f ((check api r >>= k) t).1 ≡ f s
      answered (ok a) = h a t ∙ called s
      answered (err e) = called s
