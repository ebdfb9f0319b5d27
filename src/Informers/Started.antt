-- ===== src/Informers/Started.antt =====
-- What `Start` launches, and when.
use habitat_operator.Base.{
  same-or-not, String, Bool, true, false, List, [], ◌∷◌, ◌++◌, ◌≡◌, ◌≢◌, refl, sym, ap, ◌∙◌, subst,
  inl, inr, Bool-cases, All, All-append, All-map, Among, Distinct, assign, lookup-assign,
  lookup-assign_ne,
}
use habitat_operator.Informers.{Sources, Factory, is_started, or_false, start_each, start}

true_and_false : (b : Bool) → b ≡ true → b ≡ false → ⊥
true_and_false b t f = absurd_of (sym t ∙ f)
  where
    absurd_of : true ≡ false → ⊥
    absurd_of e = cc

Distinct-append :
    (xs ys : List String)
    → Distinct xs
    → Distinct ys
    → All (λ x. ¬ Among x ys) xs
    → Distinct (xs ++ ys)
Distinct-append [] ys d e n = e
Distinct-append (x ∷ xs) ys d e n = (λ m. outside xs d.0 m, Distinct-append xs ys d.1 e n.1)
  where
    outside : (zs : List String) → ¬ Among x zs → Among x (zs ++ ys) → ⊥
    outside [] a m = n.0 m
    outside (z ∷ zs) a (inl e) = a (inl e)
    outside (z ∷ zs) a (inr m) = outside zs (λ i. a (inr i)) m

module _ (sources : Sources) where
  is_started-assign :
      (t : String) (st : List (String × Bool)) → is_started sources t (assign t true st) ≡ true
  is_started-assign t st = ap (or_false sources) (lookup-assign t true st)

  is_started-assign_ne :
      (k t : String) (st : List (String × Bool))
      → t ≢ k
      → is_started sources t (assign k true st) ≡ is_started sources t st
  is_started-assign_ne k t st ne = ap (or_false sources) (lookup-assign_ne k t true st ne)

  -- What is started stays started.
  assign_started :
      (k t : String) (st : List (String × Bool))
      → is_started sources t st ≡ true
      → is_started sources t (assign k true st) ≡ true
  assign_started k t st e = elim (same-or-not t k) [
    | inl same ↦
        subst (λ x. is_started sources x (assign k true st) ≡ true) (sym same)
          (is_started-assign k st)
    | inr ne ↦ is_started-assign_ne k t st ne ∙ e
  ]

  -- How the loop of `Start` changes what is started: it launches each type once, none that was
  -- started before, and all of them are started afterwards.
  pub record Launches (before after : List (String × Bool)) (types : List String) : Type 0 where
    pub kept : (t : String) → is_started sources t before ≡ true → is_started sources t after ≡ true
    pub fresh :
        All (λ t. (is_started sources t before ≡ false) × (is_started sources t after ≡ true)) types
    pub once : Distinct types

  first_launch :
      (t : String) (before after : List (String × Bool)) (types : List String)
      → is_started sources t before ≡ false
      → Launches (assign t true before) after types
      → Launches before after (t ∷ types)
  first_launch t before after types new l = record {
    kept = λ u e. l.kept u (assign_started t u before e);
    fresh = (
      (new, l.kept t (is_started-assign t before)),
      All-map _ _ (λ u h. (older u (assign_ne u h.0) h.0, h.1)) types l.fresh,
    );
    once = (others types l.fresh, l.once);
  }
    where
      assign_ne : (u : String) → is_started sources u (assign t true before) ≡ false → u ≢ t
      assign_ne u h e =
          true_and_false _
            (subst (λ x. is_started sources x (assign t true before) ≡ true) (sym e)
              (is_started-assign t before))
            h

      older :
          (u : String)
          → u ≢ t
          → is_started sources u (assign t true before) ≡ false
          → is_started sources u before ≡ false
      older u ne h = sym (is_started-assign_ne t u before ne) ∙ h

      others :
          (ts : List String)
          → All
              (λ u.
                (is_started sources u (assign t true before) ≡ false)
                × (is_started sources u after ≡ true))
              ts
          → ¬ Among t ts
      others [] h m = elim m [ ]
      others (u ∷ us) h (inl e) =
          true_and_false _
            (subst (λ x. is_started sources x (assign t true before) ≡ true) e
              (is_started-assign t before))
            h.0.0
      others (u ∷ us) h (inr m) = others us h.1 m

  pub start_each-Launches :
      (informers : List (String × sources.Informer)) (st : List (String × Bool))
      → Launches st (start_each sources informers st).1 (start_each sources informers st).0
  unfolding start_each
  start_each-Launches [] st = record { kept = λ t e. e; fresh = tt; once = tt }
  start_each-Launches (e ∷ informers) st = elim (Bool-cases (is_started sources e.0 st)) [
    | inl started ↦ rw started (start_each-Launches informers st)
    | inr new ↦
        rw new (first_launch e.0 st _ _ new (start_each-Launches informers (assign e.0 true st)))
  ]

  pub Launches-trans :
      (a b c : List (String × Bool)) (xs ys : List String)
      → Launches a b xs
      → Launches b c ys
      → Launches a c (xs ++ ys)
  Launches-trans a b c xs ys l m = record {
    kept = λ t e. m.kept t (l.kept t e);
    fresh =
        All-append _ xs ys (All-map _ _ (λ t h. (h.0, m.kept t h.1)) xs l.fresh)
          (All-map _ _ (λ t h. (earlier t h.0, h.1)) ys m.fresh);
    once = Distinct-append xs ys l.once m.once (apart xs l.fresh);
  }
    where
      cases : (x : Bool) → (x ≡ true → ⊥) → x ≡ false
      cases true n = absurd (n refl)
      cases false n = refl

      earlier : (t : String) → is_started sources t b ≡ false → is_started sources t a ≡ false
      earlier t h = cases (is_started sources t a) (λ e. true_and_false _ (l.kept t e) h)

      not_later :
          (t : String) (zs : List String)
          → is_started sources t b ≡ true
          → All (λ u. (is_started sources u b ≡ false) × (is_started sources u c ≡ true)) zs
          → ¬ Among t zs
      not_later t [] e h i = elim i [ ]
      not_later t (z ∷ zs) e h (inl same) =
          true_and_false _ (subst (λ x. is_started sources x b ≡ true) same e) h.0.0
      not_later t (z ∷ zs) e h (inr i) = not_later t zs e h.1 i

      apart :
          (zs : List String)
          → All (λ t. (is_started sources t a ≡ false) × (is_started sources t b ≡ true)) zs
          → All (λ t. ¬ Among t ys) zs
      apart [] h = tt
      apart (z ∷ zs) h = (not_later z ys h.0.1 m.fresh, apart zs h.1)

  start_each_started :
      (informers : List (String × sources.Informer)) (st : List (String × Bool))
      → All (λ e. is_started sources e.0 (start_each sources informers st).1 ≡ true) informers
  unfolding start_each
  start_each_started [] st = tt
  start_each_started (e ∷ informers) st = elim (Bool-cases (is_started sources e.0 st)) [
    | inl started ↦
        subst AllStarted (sym (skips started))
          ((start_each-Launches informers st).kept e.0 started, start_each_started informers st)
    | inr new ↦
        let st' = assign e.0 true st in
        let r = start_each sources informers st' in
        subst AllStarted (sym (runs new)) (
          (start_each-Launches informers st').kept e.0 (is_started-assign e.0 st),
          start_each_started informers st',
        )
  ]
    where
      AllStarted : List String × List (String × Bool) → Type 0
      AllStarted r =
          (is_started sources e.0 r.1 ≡ true)
          × All (λ x. is_started sources x.0 r.1 ≡ true) informers

      skips :
          is_started sources e.0 st ≡ true
          → start_each sources (e ∷ informers) st ≡ start_each sources informers st
      skips started = rw started refl

      runs :
          is_started sources e.0 st ≡ false
          → let r = start_each sources informers (assign e.0 true st) in
            start_each sources (e ∷ informers) st ≡ (e.0 ∷ r.0, r.1)
      runs new = rw new refl

  start_each_again :
      (informers : List (String × sources.Informer)) (st : List (String × Bool))
      → All (λ e. is_started sources e.0 st ≡ true) informers
      → start_each sources informers st ≡ ([], st)
  unfolding start_each
  start_each_again [] st h = refl
  start_each_again (e ∷ informers) st h = rw h.0 (start_each_again informers st h.1)

  -- After `Start` every informer in the factory has been started, and to start it again runs none
  -- and changes nothing.
  pub start_again :
      (f : Factory sources)
      → All (λ e. is_started sources e.0 (start sources f).1.started_informers ≡ true) f.informers
        × (start sources (start sources f).1 ≡ ([], (start sources f).1))
  unfolding start
  start_again f =
      let r = start_each sources f.informers f.started_informers in
      let all = start_each_started f.informers f.started_informers in
      (
        all,
        ap (λ (x : List String × List (String × Bool)). (x.0, record f { started_informers = x.1 }))
            (start_each_again f.informers r.1 all),
      )
