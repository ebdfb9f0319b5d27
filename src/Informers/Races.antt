-- ===== src/Informers/Races.antt =====
-- The controller's goroutine and the one that starts the factory of Habitats' informers, in the two
-- orders that `v1beta2` of cmd/habitat-operator/main.go allows: `cacheHabitats` asks for the Habitats'
-- informer, which the controller's `Run` then runs itself.
use habitat_operator.Base.{assign, ℕ, String, [], ◌∷◌, ◌≡◌, refl}
use habitat_operator.Informers.{
  Sources, with_namespace, new_shared_informer_factory_with_options, start,
}
use habitat_operator.Informers.Habitats.{habitat_type, habitat_informer}

-- `Start` of a new factory that is limited to a namespace runs no informer; once the Habitats'
-- informer was asked for, it runs that one.
pub start_order :
    (sources : Sources) (client : sources.Client) (resync : ℕ) (namespace : String)
    → let f =
        new_shared_informer_factory_with_options sources client resync
          (with_namespace sources namespace ∷ []) in
      ((start sources f).0 ≡ [])
      × ((start sources (habitat_informer sources f).1).0 ≡ habitat_type sources ∷ [])
unfolding new_shared_informer_factory_with_options habitat_informer start assign
start_order sources client resync namespace = (refl, refl)
