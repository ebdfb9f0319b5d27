-- ===== src/Setup.antt =====
-- pkg/controller/v1beta2/utils.go: `CreateCRD`, and cmd/habitat-operator/main.go: `createCRD`. The
-- server of the apiextensions group is a parameter. `wait.Poll` evaluates its condition once in each
-- interval until the time is out; how often that is, is an argument.
pub mod Laws
use habitat_operator.Base.{
  ℕ, zero, suc, String, ◌<>◌, ◌==◌, Bool, false, ◌||◌, ◌&&◌, not, List, [], ◌∷◌, Result, ok, err,
  Exec, Outcome, returns, fails, panics, pure, throw, panic, attempt, ◌>>=◌, if◌then◌else◌,
}
use habitat_operator.Types.{habitat_kind}

abbrev pub group_name : String
group_name = "habitat.sh"

abbrev pub habitat_resource_plural : String
habitat_resource_plural = "habitats"

abbrev pub habitat_short_name : String
habitat_short_name = "hab"

abbrev pub habitat_crd_name : String
habitat_crd_name = habitat_resource_plural <> ("." <> group_name)

-- A CustomResourceDefinition, with the fields that are set.
pub record Definition : Type 0 where
  pub name : String
  pub group : String
  pub version : String
  pub scope : String
  pub plural : String
  pub kind : String
  pub short_names : List String

abbrev pub crd : Definition
crd = record {
  name = habitat_resource_plural <> ("." <> group_name);
  group = group_name;
  version = "v1beta1";
  scope = "Namespaced";
  plural = habitat_resource_plural;
  kind = habitat_kind;
  short_names = habitat_short_name ∷ [];
}

pub record Condition : Type 0 where
  pub kind : String
  pub status : String

-- The clientset of the apiextensions group. `get` answers with the conditions of the status.
pub record Extensions : Type 1 where
  pub World : Type 0
  pub Failure : Type 0
  pub is_already_exists : Failure → Bool
  pub create : Definition → World → Result Failure (Unit {0}) × World
  pub get : String → World → Result Failure (List Condition) × World
  pub delete : String → World → Result Failure (Unit {0}) × World

-- `aggregate` is `errors.NewAggregate`, and `wrap` is `errors.Wrap`.
pub data SetupError (F : Type 0) : Type 0 where
  plain : F → SetupError F
  timed_out : SetupError F
  aggregate : SetupError F → F → SetupError F
  wrap : SetupError F → String → SetupError F

-- The loop over the conditions, which returns at the first that says so.
unfoldable pub is_established : List Condition → Bool
is_established [] = false
is_established (c ∷ cs) = (c.kind == "Established" && c.status == "True") || is_established cs

module _ (api : Extensions) where
  abbrev pub Setup : Type 0 → Type 0
  Setup A = Exec (SetupError api.Failure) api.World A

  -- The condition that is polled, on the answer of `Get`.
  abbrev pub conditions_seen : Result api.Failure (List Condition) → Setup Bool
  conditions_seen (ok cs) = pure (is_established cs)
  conditions_seen (err e) = throw (plain e)

  unfoldable pub poll : ℕ → Setup (Unit {0})
  poll zero w = throw timed_out w
  poll (suc n) w =
      let rest = poll n in
      let g = api.get habitat_crd_name w in
      (conditions_seen g.0 >>= λ seen. if seen then pure tt else rest) g.1

  -- `if err != nil` after the poll: the definition is deleted.
  abbrev pub delete_failed :
      SetupError api.Failure → Result api.Failure (Unit {0}) → SetupError api.Failure
  delete_failed e (ok _) = e
  delete_failed e (err d) = aggregate e d

  abbrev pub polled : Outcome (SetupError api.Failure) (Unit {0}) → Setup (Unit {0})
  polled (returns _) w = pure tt w
  polled (fails e) w = let d = api.delete habitat_crd_name w in (fails (delete_failed e d.0), d.1)
  polled panics w = panic w

  abbrev pub crd_created : ℕ → Result api.Failure (Unit {0}) → Setup (Unit {0})
  crd_created tries (err e) w = throw (plain e) w
  crd_created tries (ok _) w = let r = poll tries w in polled r.0 r.1

  unfoldable pub create_crd : ℕ → Setup (Unit {0})
  create_crd tries w = let c = api.create crd w in crd_created tries c.0 c.1

  -- `apierrors.IsAlreadyExists`, which reads the reason of an error of the server.
  abbrev pub already_exists : SetupError api.Failure → Bool
  already_exists (plain e) = api.is_already_exists e
  already_exists _ = false

  abbrev pub registered : Result (SetupError api.Failure) (Unit {0}) → Setup (Unit {0})
  registered (ok _) = pure tt
  registered (err e) =
      if not (already_exists e) then throw (wrap e "create Habitat CRD failed") else pure tt

  -- main.go: `createCRD`
  unfoldable pub register : ℕ → Setup (Unit {0})
  register tries = attempt (create_crd tries) >>= registered
