-- ===== src/Clientset.antt =====
-- pkg/client/clientset/versioned/clientset.go and typed/habitat/v1beta1/habitat_client.go: the clients
-- that are made from a configuration, on a heap, since a configuration is copied and then changed.
pub mod Sharing
pub mod OrDie
use habitat_operator.Base.{
  ℕ, ℤ, String, ◌==◌, Bool, true, false, ◌&&◌, Option, none, some, Result, ok, err, Outcome,
  returns, fails, panics, if◌then◌else◌,
}
use habitat_operator.Memory.{Cmd, pure, ◌>>=◌, load, alloc, store}

-- What client-go gives. `Rest` is the part of a configuration that the code leaves as it is.
pub record Library : Type 1 where
  pub Rest : Type 0
  -- float32, and `x > 0`
  pub Qps : Type 0
  pub is_positive : Qps → Bool
  pub Codec : Type 0
  -- serializer.DirectCodecFactory{CodecFactory: scheme.Codecs}
  pub codecs : Codec
  -- rest.DefaultKubernetesUserAgent()
  pub default_user_agent : String
  pub Failure : Type 0
  pub RestClient : Type 0
  pub Discovery : Type 0

module _ (library : Library) where
  -- rest.Config, with the fields that the code reads or sets. `rate_limiter` is a pointer.
  pub record Config : Type 0 where
    pub rate_limiter : Option ℕ
    pub qps : library.Qps
    pub burst : ℤ
    pub group_version : Option (String × String)
    pub api_path : String
    pub negotiated_serializer : Option library.Codec
    pub user_agent : String
    pub rest : library.Rest

  -- A limiter of flowcontrol.NewTokenBucketRateLimiter, by what it was made from.
  pub data Cell : Type 0 where
    a_config : Config → Cell
    a_limiter : library.Qps → ℤ → Cell

  abbrev pub as_config : Cell → Option Config
  as_config (a_config c) = some c
  as_config (a_limiter q b) = none

  -- rest.RESTClientFor and discovery.NewDiscoveryClientForConfig, which read a configuration.
  pub record Makers : Type 0 where
    pub rest_client_for : Config → Result library.Failure library.RestClient
    pub discovery_for : Config → Result library.Failure library.Discovery
    -- discovery.NewDiscoveryClient
    pub new_discovery : library.RestClient → library.Discovery

  -- A client that is made has a REST client.
  pub record HabitatV1beta1Client : Type 0 where
    pub rest_client : library.RestClient

  pub record Clientset : Type 0 where
    pub discovery_client : library.Discovery
    pub habitat_v1beta1 : HabitatV1beta1Client

  -- `New` of habitat_client.go
  abbrev pub v1beta1_new : library.RestClient → HabitatV1beta1Client
  v1beta1_new c = record { rest_client = c }

  -- The methods `RESTClient` and `Discovery`, which a nil pointer has too.
  abbrev pub rest_client : Option HabitatV1beta1Client → Option library.RestClient
  rest_client none = none
  rest_client (some c) = some c.rest_client

  abbrev pub discovery : Option Clientset → Option library.Discovery
  discovery none = none
  discovery (some c) = some c.discovery_client

  -- habitat.go: `habitats`, and what `Habitats` of a client makes.
  pub record Habitats : Type 0 where
    pub client : Option library.RestClient
    pub ns : String

  abbrev pub new_habitats : Option HabitatV1beta1Client → String → Habitats
  new_habitats c namespace = record { client = rest_client c; ns = namespace }

  -- habitat_client.go: what `setConfigDefaults` makes of a configuration
  abbrev pub user_agent_or_default : String → String
  user_agent_or_default agent = if agent == "" then library.default_user_agent else agent

  abbrev pub with_defaults : Config → Config
  with_defaults config = record config {
    group_version = some ("habitat.sh", "v1beta1");
    api_path = "/apis";
    negotiated_serializer = some library.codecs;
    user_agent = user_agent_or_default config.user_agent;
  }

  -- It returns nil in any case.
  abbrev pub set_config_defaults : ℕ → Cmd Cell (Option library.Failure)
  set_config_defaults p =
      load as_config p >>= λ config. store p (a_config (with_defaults config)) >>= λ _. pure none

  module _ (makers : Makers) where
    abbrev pub wrapped :
        Result library.Failure library.RestClient → Result library.Failure HabitatV1beta1Client
    wrapped (ok client) = ok (v1beta1_new client)
    wrapped (err e) = err e

    abbrev pub made_client :
        ℕ → Option library.Failure → Cmd Cell (Result library.Failure HabitatV1beta1Client)
    made_client p (some e) = pure (err e)
    made_client p none =
        load as_config p >>= λ config. pure (wrapped (makers.rest_client_for config))

    -- `NewForConfig` of habitat_client.go
    unfoldable pub v1beta1_new_for_config :
        ℕ → Cmd Cell (Result library.Failure HabitatV1beta1Client)
    v1beta1_new_for_config c = load as_config c >>= λ config.
        alloc (a_config config) >>= λ p. set_config_defaults p >>= λ e. made_client p e

    -- `NewForConfigOrDie` of habitat_client.go: `panic(err)`
    abbrev pub or_die : {E A : Type 0} → Result library.Failure A → Outcome E A
    or_die (ok a) = returns a
    or_die (err e) = panics

    unfoldable pub v1beta1_new_for_config_or_die :
        ℕ → Cmd Cell (Outcome library.Failure HabitatV1beta1Client)
    unfolding v1beta1_new_for_config
    v1beta1_new_for_config_or_die c = v1beta1_new_for_config c >>= λ r. pure (or_die r)

    abbrev pub needs_limiter : Option ℕ → library.Qps → Bool
    needs_limiter none qps = library.is_positive qps
    needs_limiter (some l) qps = false

    abbrev pub limit : ℕ → Config → Bool → Cmd Cell (Unit {0})
    limit p config false = pure tt
    limit p config true = alloc (a_limiter config.qps config.burst) >>= λ l.
        store p (a_config (record config { rate_limiter = some l }))

    abbrev pub with_discovery :
        HabitatV1beta1Client
        → Result library.Failure library.Discovery
        → Result library.Failure Clientset
    with_discovery client (err e) = err e
    with_discovery client (ok d) = ok (record { discovery_client = d; habitat_v1beta1 = client })

    abbrev pub then_discovery :
        ℕ
        → Result library.Failure HabitatV1beta1Client
        → Cmd Cell (Result library.Failure Clientset)
    then_discovery p (err e) = pure (err e)
    then_discovery p (ok client) =
        load as_config p >>= λ config. pure (with_discovery client (makers.discovery_for config))

    -- `NewForConfig` of clientset.go
    unfoldable pub new_for_config : ℕ → Cmd Cell (Result library.Failure Clientset)
    unfolding v1beta1_new_for_config
    new_for_config c = load as_config c >>= λ config. alloc (a_config config) >>= λ p.
        limit p config (needs_limiter config.rate_limiter config.qps) >>= λ _.
        v1beta1_new_for_config p >>= λ r. then_discovery p r

    abbrev pub with_discovery_or_die :
        HabitatV1beta1Client
        → Outcome library.Failure library.Discovery
        → Outcome library.Failure Clientset
    with_discovery_or_die client (returns d) =
        returns (record { discovery_client = d; habitat_v1beta1 = client })
    with_discovery_or_die client (fails e) = fails e
    with_discovery_or_die client panics = panics

    -- discovery.NewDiscoveryClientForConfigOrDie(c)
    abbrev pub then_discovery_or_die :
        ℕ
        → Outcome library.Failure HabitatV1beta1Client
        → Cmd Cell (Outcome library.Failure Clientset)
    then_discovery_or_die c (returns client) = load as_config c >>= λ config.
        pure (with_discovery_or_die client (or_die (makers.discovery_for config)))
    then_discovery_or_die c (fails e) = pure (fails e)
    then_discovery_or_die c panics = pure panics

    -- `NewForConfigOrDie` of clientset.go
    unfoldable pub new_for_config_or_die : ℕ → Cmd Cell (Outcome library.Failure Clientset)
    unfolding v1beta1_new_for_config_or_die
    new_for_config_or_die c = v1beta1_new_for_config_or_die c >>= λ r. then_discovery_or_die c r

    -- `New` of clientset.go
    abbrev pub new : library.RestClient → Clientset
    new c = record { discovery_client = makers.new_discovery c; habitat_v1beta1 = v1beta1_new c }
