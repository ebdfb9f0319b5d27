-- ===== src/Tests/Starts.antt =====
-- The theorems on the start of the process, on a platform whose server establishes the definition at
-- the second look.
use habitat_operator.Base.{ℕ, String, true, false, returns, fails, some, ok, ◌≡◌, ◌≢◌, refl, ◌⊎◌}
use habitat_operator.Setup.{create_crd, register, poll, is_established, plain}
use habitat_operator.Setup.Laws.{IsEstablished, register_returns}
use habitat_operator.Command.{
  FlagOpts, Platform, Controller, Clientsets, controller_config, v1beta2, startup,
}
use habitat_operator.Command.Startup.{HasStarted, startup-HasStarted, startup_restricted}
use habitat_operator.Tests.Setups.{extensions}
use habitat_operator.Tests.Factories.{sources}

abbrev platform : Platform
platform = record {
  extensions = extensions;
  sources = sources;
  RestConfig = String;
  KubeClient = String;
  KubeFactory = String × ℕ;
  RestClient = String;
  Logger = String;
  logger = "log";
  build_config = λ path. ok path;
  new_extensions = λ config. ok tt;
  new_habitat_client = λ config. ok "habitat";
  new_kube_client = λ config. ok "kube";
  list_namespaces = λ client w. (ok tt, w);
  rest_client = λ client. client;
  new_kube_factory = λ client resync namespace. (namespace, resync);
}

abbrev everywhere : FlagOpts
everywhere = record {
  kubeconfig = "/root/.kube/config";
  namespace = "";
  assume_crd_registered = false;
}

abbrev in_web : FlagOpts
in_web = record {
  kubeconfig = "/root/.kube/config";
  namespace = "web";
  assume_crd_registered = true;
}

abbrev clients : Clientsets platform
clients = record { kube_clientset = "kube"; hab_clientset = "habitat" }

abbrev controller : FlagOpts → Controller platform
controller flags = (controller_config platform clients flags, some "log")

startup-everywhere : (startup platform 20 everywhere 0).0 ≡ returns (controller everywhere)
unfolding startup v1beta2 register create_crd poll is_established
startup-everywhere = refl

startup-HasStarted_example : HasStarted platform everywhere (controller everywhere)
startup-HasStarted_example =
    startup-HasStarted platform 20 everywhere 0 (controller everywhere) startup-everywhere

web_named : ◌≢◌ {A = String} "web" ""
web_named e = cc

startup_restricted_example : (startup platform 20 in_web 0).1 ≡ 0
startup_restricted_example = startup_restricted platform 20 in_web 0 web_named refl

register_established : (register extensions 20 0).0 ≡ returns tt
unfolding register create_crd poll is_established
register_established = refl

register_returns_example :
    IsEstablished extensions (register extensions 20 0).1
    ⊎ ((x : String) × ((create_crd extensions 20 0).0 ≡ fails (plain x))
        × (extensions.is_already_exists x ≡ true))
register_returns_example = register_returns extensions 20 0 register_established
