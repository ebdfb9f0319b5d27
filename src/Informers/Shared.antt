-- ===== src/Informers/Shared.antt =====
-- What a factory shares, however it is used.
use habitat_operator.Base.{
  ℕ, String, Option, none, some, List, [], ◌∷◌, ◌++◌, ◌≡◌, refl, sym, ap, ◌∙◌, subst, Distinct,
  lookup, lookup-assign, lookup-assign_ne,
}
use habitat_operator.Informers.{
  Sources, Factory, start_each, start, informer_for, informer_for_found,
}
use habitat_operator.Informers.Started.{Launches, Launches-trans, start_each-Launches}

module _ (sources : Sources) where
  -- What is done with a factory: a request for the informer of a type, or `Start`.
  pub data Use : Type 0 where
    request : String → (sources.Client → ℕ → sources.Informer) → Use
    starts : Use

  -- The types whose informer each call launches, and the factory after all of them.
  unfoldable pub use_all : List Use → Factory sources → List String × Factory sources
  use_all [] f = ([], f)
  use_all (request t new_func ∷ us) f = use_all us (informer_for sources f t new_func).1
  use_all (starts ∷ us) f =
      let r = start sources f in let rest = use_all us r.1 in (r.0 ++ rest.0, rest.1)

  started_of_request :
      (f : Factory sources) (t : String) (new_func : sources.Client → ℕ → sources.Informer)
      → (informer_for sources f t new_func).1.started_informers ≡ f.started_informers
  unfolding informer_for
  started_of_request f t new_func = found (lookup t f.informers)
    where
      found :
          (o : Option sources.Informer)
          → (informer_for_found sources f t new_func o).1.started_informers ≡ f.started_informers
      found none = refl
      found (some i) = refl

  use_all-Launches :
      (us : List Use) (f : Factory sources)
      → Launches sources f.started_informers (use_all us f).1.started_informers (use_all us f).0
  unfolding use_all start
  use_all-Launches [] f = record { kept = λ t e. e; fresh = tt; once = tt }
  use_all-Launches (request t new_func ∷ us) f =
      subst
        (λ st.
          Launches sources st (use_all us (informer_for sources f t new_func).1).1.started_informers
            (use_all us (informer_for sources f t new_func).1).0)
        (started_of_request f t new_func)
        (use_all-Launches us (informer_for sources f t new_func).1)
  use_all-Launches (starts ∷ us) f =
      let r = start_each sources f.informers f.started_informers in
      Launches-trans sources _ r.1 _ r.0 _
        (start_each-Launches sources f.informers f.started_informers)
        (use_all-Launches us (record f { started_informers = r.1 }))

  -- However often a factory is asked for informers and started, it runs the informer of a type at
  -- most once.
  pub use_all-Distinct : (us : List Use) (f : Factory sources) → Distinct (use_all us f).0
  use_all-Distinct us f = (use_all-Launches us f).once

  -- The informer of a type, once it was handed out, is in the factory for good.
  informer_for_there :
      (f : Factory sources) (t u : String) (new_func : sources.Client → ℕ → sources.Informer)
      (i : sources.Informer)
      → lookup u f.informers ≡ some i
      → lookup u (informer_for sources f t new_func).1.informers ≡ some i
  unfolding informer_for
  informer_for_there f t u new_func i there = found (lookup t f.informers) refl
    where
      found :
          (o : Option sources.Informer)
          → lookup t f.informers ≡ o
          → lookup u (informer_for_found sources f t new_func o).1.informers ≡ some i
      found (some j) e = there
      found none e =
          lookup-assign_ne t u _ f.informers
            (λ same. differ (sym e ∙ ap (λ x. lookup x f.informers) (sym same) ∙ there))
          ∙ there
        where
          differ : none ≡ some i → ⊥
          differ x = cc

  use_all_there :
      (us : List Use) (f : Factory sources) (u : String) (i : sources.Informer)
      → lookup u f.informers ≡ some i
      → lookup u (use_all us f).1.informers ≡ some i
  unfolding use_all start
  use_all_there [] f u i there = there
  use_all_there (request t new_func ∷ us) f u i there =
      use_all_there us (informer_for sources f t new_func).1 u i
        (informer_for_there f t u new_func i there)
  use_all_there (starts ∷ us) f u i there = use_all_there us (start sources f).1 u i there

  handed_out :
      (f : Factory sources) (t : String) (new_func : sources.Client → ℕ → sources.Informer)
      → lookup t (informer_for sources f t new_func).1.informers
        ≡ some (informer_for sources f t new_func).0
  unfolding informer_for
  handed_out f t new_func = found (lookup t f.informers) refl
    where
      found :
          (o : Option sources.Informer)
          → lookup t f.informers ≡ o
          → lookup t (informer_for_found sources f t new_func o).1.informers
            ≡ some (informer_for_found sources f t new_func o).0
      found (some i) e = e
      found none e = lookup-assign t _ f.informers

  -- The informer of a type is shared: a later request for the type gives the same informer, whatever
  -- was done with the factory in between, and whatever function the request brings to make one.
  pub informer_for_shared :
      (f : Factory sources) (t : String) (first later : sources.Client → ℕ → sources.Informer)
      (us : List Use)
      → let r = informer_for sources f t first in
        informer_for sources (use_all us r.1).1 t later ≡ (r.0, (use_all us r.1).1)
  unfolding informer_for
  informer_for_shared f t first later us =
      let r = informer_for sources f t first in
      ap (informer_for_found sources (use_all us r.1).1 t later)
        (use_all_there us r.1 t r.0 (handed_out f t first))
