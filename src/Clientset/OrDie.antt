-- ===== src/Clientset/OrDie.antt =====
-- What `NewForConfigOrDie` makes of a configuration.
use habitat_operator.Base.{ℕ, some, Result, ok, err, ◌≡◌, refl, arith}
use habitat_operator.Memory.{Heap}
use habitat_operator.Copies.Grows.{IsWhole, Within}
use habitat_operator.Clientset.{
  Library, Config, Cell, a_config, Makers, HabitatV1beta1Client, or_die,
  v1beta1_new_for_config_or_die, then_discovery_or_die, new_for_config_or_die, with_discovery,
  with_discovery_or_die,
}
use habitat_operator.Clientset.Sharing.{joined, client_of, connected, v1beta1_made}

module _ (library : Library) (makers : Makers library) where
  with_discovery-or_die :
      (client : HabitatV1beta1Client library) (r : Result library.Failure library.Discovery)
      → with_discovery_or_die library makers client (or_die library makers r)
        ≡ or_die library makers (with_discovery library makers client r)
  with_discovery-or_die client (ok d) = refl
  with_discovery-or_die client (err e) = refl

  discovered_or_die :
      (c : ℕ) (k : Heap (Cell library)) (config : Config library)
      (r : Result library.Failure (HabitatV1beta1Client library))
      → k.cell c ≡ some (a_config config)
      → then_discovery_or_die library makers c (or_die library makers r) k
        ≡ some (or_die library makers (joined library makers config r), k)
  unfolding joined
  discovered_or_die c k config (err e) there = refl
  discovered_or_die c k config (ok client) there =
      rw (there, with_discovery-or_die client (makers.discovery_for config)) refl

  -- `NewForConfigOrDie` makes the clients of the configuration as it is, with no limiter added,
  -- and panics if one of them cannot be made. It writes to no address that was given out
  -- before.
  pub new_for_config_or_die-connected :
      (c : ℕ) (h : Heap (Cell library)) (config : Config library)
      → IsWhole h
      → h.cell c ≡ some (a_config config)
      → (k : Heap (Cell library)) × (new_for_config_or_die library makers c h
          ≡ some (or_die library makers (connected library makers config), k))
        × Within 0 h.cell k.cell
  unfolding new_for_config_or_die v1beta1_new_for_config_or_die connected
  new_for_config_or_die-connected c h config w there =
      let (k, made, kept) = v1beta1_made library makers c h config w there in
      (
        k,
        rw made (
            discovered_or_die c k config (client_of library makers config)
              (kept c (a_config config) (omega arith) there)),
        kept,
      )
