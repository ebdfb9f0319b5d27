-- ===== src/Informers.antt =====
-- pkg/client/informers/externalversions: the factory that shares one informer for each type
-- (factory.go); Informers/Habitats has the way to the informer of Habitats.
-- The lock makes each method one step. A `reflect.Type` is its name; the informers themselves are
-- client-go's, and a parameter, as are the client and the list options.
pub mod Started
pub mod Shared
pub mod Races
pub mod Habitats
use habitat_operator.Base.{
  ℕ, String, Bool, true, false, Option, none, some, List, [], ◌∷◌, ok, lookup, assign,
  if◌then◌else◌,
}
use habitat_operator.Listers.{Indexer}

-- What client-go gives: informers, made from a client, a resync period and the functions that list
-- and watch, and whether their cache has synced before the stop channel closes.
pub record Sources : Type 1 where
  pub Client : Type 0
  pub ListOptions : Type 0
  pub Informer : Type 0
  -- cache.NewSharedIndexInformer over `Habitats(namespace)`, with the options changed first
  pub new_informer : Client → String → (ListOptions → ListOptions) → ℕ → Informer
  -- `GetIndexer`
  pub get_indexer : Informer → Indexer
  -- cache.WaitForCacheSync
  pub wait_for_sync : Informer → Bool

module _ (sources : Sources) where
  abbrev pub Tweak : Type 0
  Tweak = Option (sources.ListOptions → sources.ListOptions)

  pub record Factory : Type 0 where
    pub client : sources.Client
    pub namespace : String
    pub tweak_list_options : Tweak
    pub default_resync : ℕ
    pub custom_resync : List (String × ℕ)
    pub informers : List (String × sources.Informer)
    pub started_informers : List (String × Bool)

  abbrev pub FactoryOption : Type 0
  FactoryOption = Factory → Factory

  -- the loop over `resyncConfig`
  abbrev pub assign_all : List (String × ℕ) → List (String × ℕ) → List (String × ℕ)
  assign_all [] m = m
  assign_all (e ∷ es) m = assign_all es (assign e.0 e.1 m)

  abbrev pub with_custom_resync_config : List (String × ℕ) → FactoryOption
  with_custom_resync_config config f = record f {
    custom_resync = assign_all config f.custom_resync;
  }

  abbrev pub with_tweak_list_options : Tweak → FactoryOption
  with_tweak_list_options tweak f = record f { tweak_list_options = tweak }

  abbrev pub with_namespace : String → FactoryOption
  with_namespace namespace f = record f { namespace = namespace }

  abbrev pub apply_options : List FactoryOption → Factory → Factory
  apply_options [] f = f
  apply_options (o ∷ os) f = apply_options os (o f)

  -- `v1.NamespaceAll` is "".
  unfoldable pub new_shared_informer_factory_with_options :
      sources.Client → ℕ → List FactoryOption → Factory
  new_shared_informer_factory_with_options client default_resync options =
      apply_options options (record {
        client = client;
        namespace = "";
        tweak_list_options = none;
        default_resync = default_resync;
        custom_resync = [];
        informers = [];
        started_informers = [];
      })

  unfoldable pub new_shared_informer_factory : sources.Client → ℕ → Factory
  unfolding new_shared_informer_factory_with_options
  new_shared_informer_factory client default_resync =
      new_shared_informer_factory_with_options client default_resync []

  unfoldable pub new_filtered_shared_informer_factory :
      sources.Client → ℕ → String → Tweak → Factory
  unfolding new_shared_informer_factory_with_options
  new_filtered_shared_informer_factory client default_resync namespace tweak =
      new_shared_informer_factory_with_options client default_resync
        (with_namespace namespace ∷ with_tweak_list_options tweak ∷ [])

  -- `f.startedInformers[informerType]`; a missing entry is false.
  abbrev pub or_false : Option Bool → Bool
  or_false none = false
  or_false (some b) = b

  abbrev pub is_started : String → List (String × Bool) → Bool
  is_started t started = or_false (lookup t started)

  -- The loop of `Start`: the types whose informer is run, in order, and the map afterwards.
  unfoldable pub start_each :
      List (String × sources.Informer) → List (String × Bool) → List String × List (String × Bool)
  start_each [] started = ([], started)
  start_each (e ∷ informers) started =
      if is_started e.0 started
      then start_each informers started
      else (let rest = start_each informers (assign e.0 true started) in (e.0 ∷ rest.0, rest.1))

  unfoldable pub start : Factory → List String × Factory
  unfolding start_each
  start f =
      let r = start_each f.informers f.started_informers in
      (r.0, record f { started_informers = r.1 })

  -- The informers that are waited for, and the answer for each.
  unfoldable pub started_only :
      List (String × sources.Informer) → List (String × Bool) → List (String × sources.Informer)
  started_only [] started = []
  started_only (e ∷ informers) started =
      let rest = started_only informers started in if is_started e.0 started then e ∷ rest else rest

  abbrev pub synced_each : List (String × sources.Informer) → List (String × Bool)
  synced_each [] = []
  synced_each (e ∷ informers) = (e.0, sources.wait_for_sync e.1) ∷ synced_each informers

  unfoldable pub wait_for_cache_sync : Factory → List (String × Bool)
  unfolding started_only
  wait_for_cache_sync f = synced_each (started_only f.informers f.started_informers)

  abbrev pub period_or : ℕ → Option ℕ → ℕ
  period_or default none = default
  period_or default (some p) = p

  abbrev pub informer_for_found :
      Factory
      → String
      → (sources.Client → ℕ → sources.Informer)
      → Option sources.Informer
      → sources.Informer × Factory
  informer_for_found f t new_func (some i) = (i, f)
  informer_for_found f t new_func none =
      let i = new_func f.client (period_or f.default_resync (lookup t f.custom_resync)) in
      (i, record f { informers = assign t i f.informers })

  unfoldable pub informer_for :
      Factory → String → (sources.Client → ℕ → sources.Informer) → sources.Informer × Factory
  informer_for f t new_func = informer_for_found f t new_func (lookup t f.informers)
