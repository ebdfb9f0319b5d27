-- ===== src/Types/Equality.antt =====
-- Equality of specifications can be decided: what `reflect.DeepEqual` computes on them.
use mathlib.Core.Logic.{dite}
use mathlib.Core.Bool.{Bool-discrete}
use native.Mathlib.Decide.{ℕ_discrete}
use habitat_operator.Base.{String, ◌==◌, eq_iff, true, Option}
use habitat_operator.Types.{V1beta2}

unfoldable pub string_discrete : Discrete String
string_discrete s t =
    dite (Bool-discrete (s == t) true) (λ same. yes ((eq_iff s t).0 same))
      (λ differ. no (λ p. differ ((eq_iff s t).1 p)))

-- `reflect.DeepEqual` on two `*V1beta2`
pub spec_discrete : Discrete (Option V1beta2)
spec_discrete = hlevel (string_discrete, ℕ_discrete)
