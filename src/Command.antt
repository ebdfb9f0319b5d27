-- ===== src/Command.antt =====
-- cmd/habitat-operator/main.go: `run` up to the start of the controller (with `v1beta2` and
-- `createCRD`), on the state of the cluster, and the shutdown of the process. Logging is left out.
pub mod Startup
pub mod Shutdown
use habitat_operator.Base.{
  ℕ, String, ◌==◌, Bool, true, false, Option, none, some, [], ◌∷◌, Result, ok, err, Exec, Outcome,
  returns, fails, panics, pure, throw, ◌>>=◌, ◌>>◌,
}
use habitat_operator.Setup.{Extensions, SetupError, register}
use habitat_operator.Informers.{
  Sources, Factory, with_namespace, new_shared_informer_factory_with_options,
}
use habitat_operator.Lifecycle.{Config, new}

-- `FlagOpts`, and the flag `kubeconfig`. The flag `verbose` only sets the level of the log.
pub record FlagOpts : Type 0 where
  pub kubeconfig : String
  pub namespace : String
  pub assume_crd_registered : Bool

-- The libraries: the configuration, the client sets, and the call that lists all namespaces. The
-- calls of the apiextensions client set are those of `extensions`, whose state is the cluster.
pub record Platform : Type 1 where
  pub extensions : Extensions
  pub sources : Sources
  pub RestConfig : Type 0
  pub KubeClient : Type 0
  pub KubeFactory : Type 0
  pub RestClient : Type 0
  pub Logger : Type 0
  pub logger : Logger
  -- clientcmd.BuildConfigFromFlags("", kubeconfig)
  pub build_config : String → Result String RestConfig
  -- apiextensionsclient.NewForConfig, habclientset.NewForConfig, kubernetes.NewForConfig
  pub new_extensions : RestConfig → Result String (Unit {0})
  pub new_habitat_client : RestConfig → Result String sources.Client
  pub new_kube_client : RestConfig → Result String KubeClient
  -- Namespaces().List(metav1.ListOptions{})
  pub list_namespaces : KubeClient → extensions.World → Result String (Unit {0}) × extensions.World
  -- HabitatV1beta1().RESTClient()
  pub rest_client : sources.Client → RestClient
  -- kubeinformers.NewSharedInformerFactoryWithOptions(…, WithNamespace(namespace))
  pub new_kube_factory : KubeClient → ℕ → String → KubeFactory

module _ (platform : Platform) where
  abbrev pub World : Type 0
  World = platform.extensions.World

  abbrev pub ControllerConfig : Type 0
  ControllerConfig =
      Config platform.RestClient platform.KubeClient platform.RestConfig platform.KubeFactory
        (Factory platform.sources)

  abbrev pub Controller : Type 0
  Controller = ControllerConfig × Option platform.Logger

  pub record Clientsets : Type 0 where
    pub kube_clientset : platform.KubeClient
    pub hab_clientset : platform.sources.Client

  -- An error of `v1beta2`: of the registration, or of `New`.
  pub data StartError : Type 0 where
    registration : SetupError platform.extensions.Failure → StartError
    invalid : String → StartError

  -- `const resyncPeriod = 30 * time.Second`, in nanoseconds
  abbrev pub resync_period : ℕ
  resync_period = 30000000000

  abbrev pub lift_registration :
      {A : Type 0}
      → Outcome (SetupError platform.extensions.Failure) A
      → World
      → Outcome StartError A × World
  lift_registration (returns a) w = (returns a, w)
  lift_registration (fails e) w = (fails (registration e), w)
  lift_registration panics w = (panics, w)

  -- `if !flags.AssumeCRDRegistered`
  abbrev pub ensure_crd : ℕ → Bool → Exec StartError World (Unit {0})
  ensure_crd tries true w = (returns tt, w)
  ensure_crd tries false w =
      let r = register platform.extensions tries w in lift_registration r.0 r.1

  abbrev pub controller_config : Clientsets → FlagOpts → ControllerConfig
  controller_config clients flags = record {
    habitat_client = some (platform.rest_client clients.hab_clientset);
    kubernetes_clientset = some clients.kube_clientset;
    cluster_config = none;
    kube_informer_factory =
        some (platform.new_kube_factory clients.kube_clientset resync_period flags.namespace);
    habitat_informer_factory = some (
        new_shared_informer_factory_with_options platform.sources clients.hab_clientset
          resync_period (with_namespace platform.sources flags.namespace ∷ []));
    namespace = flags.namespace;
  }

  abbrev pub controller_made : Result String Controller → Exec StartError World Controller
  controller_made (ok c) = pure c
  controller_made (err e) = throw (invalid e)

  -- `v1beta2`, up to the goroutines that it starts.
  unfoldable pub v1beta2 : ℕ → Clientsets → FlagOpts → Exec StartError World Controller
  unfolding new
  v1beta2 tries clients flags =
      ensure_crd tries flags.assume_crd_registered
      >> controller_made (new (controller_config clients flags) (some platform.logger))

  -- `if err != nil { … return 1 }`
  abbrev pub or_exit : {A : Type 0} → Result String A → Exec ℕ World A
  or_exit (ok a) = pure a
  or_exit (err e) = throw 1

  -- `if flags.Namespace == metav1.NamespaceAll`
  abbrev pub check_permissions : platform.KubeClient → Bool → Exec ℕ World (Unit {0})
  check_permissions client false w = (returns tt, w)
  check_permissions client true w = let r = platform.list_namespaces client w in or_exit r.0 r.1

  -- `if err := v1beta2(…); err != nil { … return 1 }`
  abbrev pub started : Outcome StartError Controller → World → Outcome ℕ Controller × World
  started (returns c) w = (returns c, w)
  started (fails e) w = (fails 1, w)
  started panics w = (panics, w)

  abbrev pub started_with : ℕ → Clientsets → FlagOpts → Exec ℕ World Controller
  started_with tries clients flags w = let r = v1beta2 tries clients flags w in started r.0 r.1

  -- `run`, until the controller is started, or the exit code.
  unfoldable pub startup : ℕ → FlagOpts → Exec ℕ World Controller
  startup tries flags = do
    config ← or_exit (platform.build_config flags.kubeconfig)
    or_exit (platform.new_extensions config)
    hab_clientset ← or_exit (platform.new_habitat_client config)
    kube_clientset ← or_exit (platform.new_kube_client config)
    check_permissions kube_clientset (flags.namespace == "")
    let clients : Clientsets = record {
      kube_clientset = kube_clientset;
      hab_clientset = hab_clientset;
    }
    started_with tries clients flags
