-- ===== src/State/Checked.antt =====
-- How a block that checks the error of a call goes on.
use habitat_operator.Base.{Result, ok, err, returns, pure, ◌>>=◌, ◌≡◌, ◌≢◌, panics, refl}
use habitat_operator.Kube.Api.{Api}
use habitat_operator.State.{Act, State, check}

module _ (api : Api) where
  -- It returned, so the call gave a value.
  pub checked_returns :
      {A B : Type 0} (r : Result api.Failure A) (k : A → Act api B) (s : State api) (b : B)
      → ((check api r >>= k) s).0 ≡ returns b
      → (a : A) × (r ≡ ok a) × ((k a s).0 ≡ returns b)
  checked_returns (ok a) k s b e = (a, refl, e)
  checked_returns (err x) k s b e = cc

  -- Nothing else happens to the state.
  pub checked_state :
      {A B : Type 0} (r : Result api.Failure A) (b : B) (s : State api)
      → ((check api r >>= λ _. pure b) s).1 ≡ s
  checked_state (ok a) b s = refl
  checked_state (err x) b s = refl

  pub check-ne-panics :
      {A : Type 0} (r : Result api.Failure A) (s : State api) → (check api r s).0 ≢ panics
  check-ne-panics (ok a) s = λ p. cc
  check-ne-panics (err e) s = λ p. cc

  pub check_state : {A : Type 0} (r : Result api.Failure A) (s : State api) → (check api r s).1 ≡ s
  check_state (ok a) s = refl
  check_state (err x) s = refl
