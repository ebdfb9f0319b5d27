-- ===== src/Tests/Clients.antt =====
-- The theorem on the fake client, with options that are their flag for watches.
use habitat_operator.Base.{String, Bool, true, none}
use habitat_operator.Client.{Options}

abbrev options : Options
options = record {
  GetOptions = String;
  ListOptions = Bool;
  DeleteOptions = String;
  PatchType = String;
  Patch = String;
  watching = λ o. true;
  is_watching = λ o. o;
  matches = λ o. none;
}
