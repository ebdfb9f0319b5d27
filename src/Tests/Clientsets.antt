-- ===== src/Tests/Clientsets.antt =====
-- The theorem on the clients, at a configuration without a limiter.
use habitat_operator.Base.{ℕ, pos, String, true, Bool, Option, none, ok}
use habitat_operator.Memory.{Heap, put}
use habitat_operator.Clientset.{Library, Config, Cell, a_config, Makers}

abbrev library : Library
library = record {
  Rest = String;
  Qps = Bool;
  is_positive = λ q. q;
  Codec = String;
  codecs = "codecs";
  default_user_agent = "kubernetes";
  Failure = String;
  RestClient = Option ℕ;
  Discovery = Option ℕ;
}

-- The clients are their limiters.
abbrev makers : Makers library
makers = record {
  rest_client_for = λ config. ok config.rate_limiter;
  discovery_for = λ config. ok config.rate_limiter;
  new_discovery = λ c. c;
}

abbrev config : Config library
config = record {
  rate_limiter = none;
  qps = true;
  burst = pos 10;
  group_version = none;
  api_path = "";
  negotiated_serializer = none;
  user_agent = "";
  rest = "cluster";
}

abbrev memory : Heap (Cell library)
memory = record { next = 1; cell = put (λ p. none) 0 (a_config config) }
