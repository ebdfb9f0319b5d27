-- ===== src/Tests/Factories.antt =====
-- The theorems on the informer factory, with informers that are their namespace and resync period.
use habitat_operator.Base.{ℕ, String, true, List, [], ◌∷◌, none, ok, ◌≡◌, Distinct}
use habitat_operator.Listers.{Indexer}
use habitat_operator.Informers.{Sources, Factory}
use habitat_operator.Informers.Shared.{Use, request, starts, use_all, use_all-Distinct}
use habitat_operator.Informers.Habitats.{
  habitat_type, habitat_informer, for_resource, lister, habitats_of, habitat_informer_shared,
}

abbrev nothing_cached : Indexer
nothing_cached = record {
  Failure = String;
  get_by_key = λ k. ok none;
  list_all = λ selector. ([], none);
  list_all_by_namespace = λ namespace selector. ([], none);
}

abbrev pub sources : Sources
sources = record {
  Client = String;
  ListOptions = String;
  Informer = String × ℕ;
  new_informer = λ client namespace tweak resync. (namespace, resync);
  get_indexer = λ i. nothing_cached;
  wait_for_sync = λ i. true;
}

abbrev factory : Factory sources
factory = record {
  client = "cluster";
  namespace = "web";
  tweak_list_options = none;
  default_resync = 30;
  custom_resync = ("*v1.Pod", 5) ∷ [];
  informers = ("*v1.ConfigMap", ("web", 30)) ∷ ("*v1.Pod", ("web", 5)) ∷ [];
  started_informers = ("*v1.Pod", true) ∷ [];
}

abbrev habitats_informer : String → ℕ → String × ℕ
habitats_informer client resync = ("web", resync)

abbrev uses : List (Use sources)
uses = starts ∷ request (habitat_type sources) habitats_informer ∷ starts ∷ starts ∷ []

use_all-Distinct_example : Distinct (use_all sources uses factory).0
use_all-Distinct_example = use_all-Distinct sources uses factory

habitat_informer_shared_example :
    let r = habitat_informer sources factory in
    let later = (use_all sources uses r.1).1 in
    (for_resource sources later ("habitat.sh", "v1beta1", "habitats")
      ≡ (ok (record { informer = r.0; resource = ("habitat.sh", "habitats") }), later))
    × (lister sources (habitats_of sources later) later ≡ (nothing_cached, later))
habitat_informer_shared_example = habitat_informer_shared sources factory uses
