-- ===== src/Tests/Setups.antt =====
-- The theorem on the custom resource definition, at a server that establishes it at the second look.
use habitat_operator.Base.{ℕ, zero, suc, false, String, List, [], ◌∷◌, ok}
use habitat_operator.Setup.{Extensions, Condition}

-- How often the server was asked.
abbrev conditions : ℕ → List Condition
conditions zero = record { kind = "NamesAccepted"; status = "True" } ∷ []
conditions (suc n) = record { kind = "Established"; status = "True" } ∷ []

abbrev pub extensions : Extensions
extensions = record {
  World = ℕ;
  Failure = String;
  is_already_exists = λ _. false;
  create = λ _ w. (ok tt, w);
  get = λ _ w. (ok (conditions w), suc w);
  delete = λ _ w. (ok tt, w);
}
