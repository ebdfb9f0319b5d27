-- ===== src/Lifecycle/Complete.antt =====
-- What `New` asks of a configuration.
use habitat_operator.Base.{String, Option, none, some, Result, ok, ◌≡◌, ◌↔◌, refl}
use habitat_operator.Lifecycle.{Config, required, new}

-- The field is not nil.
abbrev pub IsPresent : {A : Type 0} → Option A → Type 0
IsPresent {A} o = (a : A) × (o ≡ some a)

module _ {R C X K H L : Type 0} (config : Config R C X K H) (logger : Option L) where
  pub record IsComplete : Type 0 where
    pub habitat_client : IsPresent config.habitat_client
    pub kubernetes_clientset : IsPresent config.kubernetes_clientset
    pub kube_informer_factory : IsPresent config.kube_informer_factory
    pub habitat_informer_factory : IsPresent config.habitat_informer_factory
    pub logger_given : IsPresent logger

  required_ok :
      {A B : Type 0} (o : Option A) (what : String) (next : Result String B) (b : B)
      → required o what next ≡ ok b
      → IsPresent o × (next ≡ ok b)
  required_ok none what next b e = cc
  required_ok (some a) what next b e = ((a, refl), e)

  -- `New` returns a controller, with the configuration and the logger it was given, exactly if none
  -- of the clients, the factories and the logger is nil.
  pub new_iff : (new config logger ≡ ok (config, logger)) ↔ IsComplete
  unfolding new
  new_iff = (sound, complete)
    where
      sound : new config logger ≡ ok (config, logger) → IsComplete
      sound e =
          let (a, e1) = required_ok config.habitat_client _ _ _ e in
          let (b, e2) = required_ok config.kubernetes_clientset _ _ _ e1 in
          let (c, e3) = required_ok config.kube_informer_factory _ _ _ e2 in
          let (d, e4) = required_ok config.habitat_informer_factory _ _ _ e3 in
          record {
            habitat_client = a;
            kubernetes_clientset = b;
            kube_informer_factory = c;
            habitat_informer_factory = d;
            logger_given = (required_ok logger _ _ _ e4).0;
          }

      complete : IsComplete → new config logger ≡ ok (config, logger)
      complete c =
          rw
            (
              c.habitat_client.1, c.kubernetes_clientset.1, c.kube_informer_factory.1,
              c.habitat_informer_factory.1, c.logger_given.1,
            )
            refl
