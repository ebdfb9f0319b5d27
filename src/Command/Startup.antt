-- ===== src/Command/Startup.antt =====
-- How `run` starts the controller: what it has when it does, and what it does not touch.
use habitat_operator.Base.{
  ℕ, String, ◌==◌, eq_iff, true, false, none, some, [], subst, Result, ok, err, Exec, Outcome,
  returns, fails, panics, ◌>>=◌, ◌>>◌, ◌≡◌, ◌≢◌, refl, sym, ap, arith,
}
use habitat_operator.Base.Bind.{continue_returns}
use habitat_operator.State.Keeps.{Keeps, Keeps-bind}
use habitat_operator.Informers.{Factory, new_shared_informer_factory_with_options}
use habitat_operator.Lifecycle.{new}
use habitat_operator.Command.{
  FlagOpts, Platform, World, ControllerConfig, Controller, Clientsets, StartError, ensure_crd,
  controller_config, controller_made, v1beta2, or_exit, check_permissions, started, started_with,
  startup,
}

returned : {E A : Type 0} (o : Outcome E A) (a b : A) → o ≡ returns a → o ≡ returns b → a ≡ b
returned o a b e f = cc

module _ (platform : Platform) where
  or_exit-Keeps : {A : Type 0} (r : Result String A) → Keeps (λ w. w) (or_exit platform r)
  or_exit-Keeps (ok a) w = refl
  or_exit-Keeps (err e) w = refl

  -- The factory of Habitats' informers: new, for all that is in the namespace.
  pub record IsLimited (client : platform.sources.Client) (namespace : String)
      (f : Factory platform.sources) : Type 0 where
    pub client_given : f.client ≡ client
    pub namespace_given : f.namespace ≡ namespace
    pub untweaked : f.tweak_list_options ≡ none
    pub resync : f.default_resync ≡ 30000000000
    pub unused : f.informers ≡ []

  -- The configuration of the controller: both factories are limited to the namespace of the flags.
  pub record HasConfig (clients : Clientsets platform) (flags : FlagOpts)
      (config : ControllerConfig platform) : Type 0 where
    pub namespace : config.namespace ≡ flags.namespace
    pub rest_client : config.habitat_client ≡ some (platform.rest_client clients.hab_clientset)
    pub kube_client : config.kubernetes_clientset ≡ some clients.kube_clientset
    pub kube_factory :
        config.kube_informer_factory
        ≡ some (platform.new_kube_factory clients.kube_clientset 30000000000 flags.namespace)
    pub habitat_factory :
        (f : Factory platform.sources) × (config.habitat_informer_factory ≡ some f)
        × IsLimited clients.hab_clientset flags.namespace f

  controller_config-HasConfig :
      (clients : Clientsets platform) (flags : FlagOpts)
      → HasConfig clients flags (controller_config platform clients flags)
  unfolding new_shared_informer_factory_with_options
  controller_config-HasConfig clients flags = record {
    namespace = refl;
    rest_client = refl;
    kube_client = refl;
    kube_factory = refl;
    habitat_factory = (
      _,
      refl,
      record {
        client_given = refl;
        namespace_given = refl;
        untweaked = refl;
        resync = refl;
        unused = refl;
      },
    );
  }

  -- What `startup` needs from the libraries, and what it then has.
  pub record HasStarted (flags : FlagOpts) (c : Controller platform) : Type 0 where
    pub config : platform.RestConfig
    pub clients : Clientsets platform
    pub built : platform.build_config flags.kubeconfig ≡ ok config
    pub connected : platform.new_extensions config ≡ ok tt
    pub habitat_connected : platform.new_habitat_client config ≡ ok clients.hab_clientset
    pub kube_connected : platform.new_kube_client config ≡ ok clients.kube_clientset
    pub config_made : HasConfig clients flags c.0
    pub logger : c.1 ≡ some platform.logger

  or_exit_returns :
      {A B : Type 0} (r : Result String A) (k : A → Exec ℕ (World platform) B) (w : World platform)
      (b : B)
      → ((or_exit platform r >>= k) w).0 ≡ returns b
      → (a : A) × (r ≡ ok a) × ((k a w).0 ≡ returns b)
  or_exit_returns (ok a) k w b e = (a, refl, e)
  or_exit_returns (err x) k w b e = cc

  v1beta2_returns :
      (tries : ℕ) (clients : Clientsets platform) (flags : FlagOpts) (w : World platform)
      (c : Controller platform)
      → (v1beta2 platform tries clients flags w).0 ≡ returns c
      → c ≡ (controller_config platform clients flags, some platform.logger)
  unfolding v1beta2
  v1beta2_returns tries clients flags w c e =
      let r = ensure_crd platform tries flags.assume_crd_registered w in
      let (_, _, after) = continue_returns r.0 (λ _. made) r.1 c e in
      sym (returned (made r.1).0 _ c refl after)
    where
      made : Exec (StartError platform) (World platform) (Controller platform)
      made =
          controller_made platform
            (new (controller_config platform clients flags) (some platform.logger))

  started_returns :
      (o : Outcome (StartError platform) (Controller platform)) (w : World platform)
      (c : Controller platform)
      → (started platform o w).0 ≡ returns c
      → o ≡ returns c
  started_returns (returns d) w c e = ap returns (returned _ d c refl e)
  started_returns (fails x) w c e = cc
  started_returns panics w c e = cc

  -- Where `run` gets as far as the controller, the configuration was built and all three client sets
  -- connected, and the controller has the clients, the namespace of the flags, the logger, and two
  -- factories for 30 seconds that are limited to that namespace, of which that of Habitats has no
  -- informer yet: `New` has not refused them.
  pub startup-HasStarted :
      (tries : ℕ) (flags : FlagOpts) (w : World platform) (c : Controller platform)
      → (startup platform tries flags w).0 ≡ returns c
      → HasStarted flags c
  unfolding startup
  startup-HasStarted tries flags w c e =
      let (config, built, e1) = or_exit_returns (platform.build_config flags.kubeconfig) _ w c e in
      let (_, connected, e2) = or_exit_returns (platform.new_extensions config) _ w c e1 in
      let (hab, hab_connected, e3) =
        or_exit_returns (platform.new_habitat_client config) _ w c e2 in
      let (kube, kube_connected, e4) = or_exit_returns (platform.new_kube_client config) _ w c e3 in
      let clients : Clientsets platform = record { kube_clientset = kube; hab_clientset = hab } in
      let p = check_permissions platform kube (flags.namespace == "") w in
      let (_, _, e5) =
        continue_returns p.0 (λ _. started_with platform tries clients flags) p.1 c e4 in
      let r = v1beta2 platform tries clients flags p.1 in
      let same = v1beta2_returns tries clients flags p.1 c (started_returns r.0 r.1 c e5) in
      record {
        config = config;
        clients = clients;
        built = built;
        connected = connected;
        habitat_connected = hab_connected;
        kube_connected = kube_connected;
        config_made =
            subst (λ d. HasConfig clients flags d.0) (sym same)
              (controller_config-HasConfig clients flags);
        logger = ap (λ d. d.1) same;
      }

  -- The rest of `run` after the client sets, in a namespace and with the definition in place.
  restricted_rest :
      (tries : ℕ) (flags : FlagOpts) (clients : Clientsets platform)
      → (flags.namespace == "") ≡ false
      → flags.assume_crd_registered ≡ true
      → Keeps
          (λ w. w)
          (check_permissions platform clients.kube_clientset (flags.namespace == "")
            >> started_with platform tries clients flags)
  unfolding v1beta2
  restricted_rest tries flags clients scoped assumed w = rw (scoped, assumed) refl

  -- In a namespace, and with the flag that says that the definition is registered, `run` makes no
  -- call for namespaces or for the definition before the controller starts, be it that the start
  -- fails or not: the cluster is as it was.
  pub startup_restricted :
      (tries : ℕ) (flags : FlagOpts) (w : World platform)
      → flags.namespace ≢ ""
      → flags.assume_crd_registered ≡ true
      → (startup platform tries flags w).1 ≡ w
  unfolding startup
  startup_restricted tries flags w scoped assumed =
      let other : (flags.namespace == "") ≡ false = ground (arith, eq_iff flags.namespace "") in
      Keeps-bind (λ w. w) (or_exit platform (platform.build_config flags.kubeconfig)) _
        (or_exit-Keeps _)
        (λ config.
          Keeps-bind (λ w. w) (or_exit platform (platform.new_extensions config)) _
            (or_exit-Keeps _)
            λ _.
              Keeps-bind (λ w. w) (or_exit platform (platform.new_habitat_client config)) _
                (or_exit-Keeps _)
                λ hab.
                  Keeps-bind (λ w. w) (or_exit platform (platform.new_kube_client config)) _
                    (or_exit-Keeps _)
                    λ kube.
                      restricted_rest tries flags
                        (record { kube_clientset = kube; hab_clientset = hab }) other assumed)
        w
