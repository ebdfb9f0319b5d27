-- ===== src/Setup/Laws.antt =====
-- What the creation of the custom resource definition leaves behind.
use habitat_operator.Base.{
  ℕ, zero, suc, ◌==◌, eq_iff, ◌∙◌, [], ◌∷◌, Bool, true, false, List, Result, ok, err, Outcome,
  returns, fails, panics, ◌≡◌, ◌≢◌, refl, ◌⊎◌, inl, inr, ◌>>=◌, pure, if◌then◌else◌, sym, ap, subst,
  Bool-cases, caught, continue,
}
use habitat_operator.Setup.{
  Extensions, Condition, SetupError, plain, timed_out, aggregate, wrap, habitat_crd_name, crd,
  is_established, Setup, conditions_seen, poll, polled, crd_created, create_crd, delete_failed,
  register, registered, already_exists,
}

failed_returns : {E A : Type 0} (o : Outcome E A) (e : E) (a : A) → o ≡ fails e → o ≢ returns a
failed_returns o e a f r = cc

-- One of the conditions is that the definition is established, and it holds.
pub SaysEstablished : List Condition → Type 0
SaysEstablished [] = ⊥
SaysEstablished (c ∷ cs) = ((c.kind ≡ "Established") × (c.status ≡ "True")) ⊎ SaysEstablished cs

is_established_says : (cs : List Condition) → is_established cs ≡ true → SaysEstablished cs
unfolding is_established SaysEstablished
is_established_says [] e = cc
is_established_says (c ∷ cs) e = elim (Bool-cases (c.kind == "Established")) [
  | inl kind ↦ elim (Bool-cases (c.status == "True")) [
    | inl status ↦ inl ((eq_iff c.kind "Established").0 kind, (eq_iff c.status "True").0 status)
    | inr other ↦ inr (is_established_says cs (rw (kind, other) at e))
  ]
  | inr other ↦ inr (is_established_says cs (rw other at e))
]

module _ (api : Extensions) where
  -- The last answer of the server said that the definition is established.
  abbrev pub IsEstablished : api.World → Type 0
  IsEstablished v =
      (w : api.World) × (cs : List Condition) × ((api.get habitat_crd_name w).0 ≡ ok cs)
      × SaysEstablished cs
      × (v ≡ (api.get habitat_crd_name w).1)

  -- One round of the poll, with what the rounds after it do.
  round-IsEstablished :
      (rest : Setup api (Unit {0})) (w : api.World)
      → ((v : api.World) → (rest v).0 ≡ returns tt → IsEstablished (rest v).1)
      → (r : Result api.Failure (List Condition)) → (api.get habitat_crd_name w).0 ≡ r
      → let m = conditions_seen api r >>= λ seen. if seen then pure tt else rest in
        (m (api.get habitat_crd_name w).1).0 ≡ returns tt
        → IsEstablished (m (api.get habitat_crd_name w).1).1
  round-IsEstablished rest w later (err x) got e = cc
  round-IsEstablished rest w later (ok cs) got e =
      decided (is_established cs) (λ yes. (w, cs, got, is_established_says cs yes, refl)) e
    where
      v : api.World
      v = (api.get habitat_crd_name w).1

      go : Bool → Setup api (Unit {0})
      go seen = if seen then pure tt else rest

      decided :
          (b : Bool)
          → (b ≡ true → IsEstablished v)
          → (go b v).0 ≡ returns tt
          → IsEstablished (go b v).1
      decided true now e = now refl
      decided false now e = later v e

  poll-IsEstablished :
      (n : ℕ) (w : api.World) → (poll api n w).0 ≡ returns tt → IsEstablished (poll api n w).1
  unfolding poll
  poll-IsEstablished zero w e = cc
  poll-IsEstablished (suc n) w e =
      round-IsEstablished (poll api n) w (poll-IsEstablished n) (api.get habitat_crd_name w).0 refl
        e

  -- How the creation ends: `create_crd` returned and the definition is established, or the server
  -- did not create it, or it was created and deleted again.
  abbrev pub EndsClean :
      api.World → Outcome (SetupError api.Failure) (Unit {0}) × api.World → Type 0
  EndsClean w r =
      ((r.0 ≡ returns tt) × IsEstablished r.1)
      ⊎ ((e : api.Failure) × ((api.create crd w).0 ≡ err e)
          × (r ≡ (fails (plain e), (api.create crd w).1)))
      ⊎ ((e : SetupError api.Failure) × (v : api.World) × ((api.create crd w).0 ≡ ok tt)
          × (r ≡ (
            fails (delete_failed api e (api.delete habitat_crd_name v).0),
            (api.delete habitat_crd_name v).1,
          )))

  poll-ne-panics : (n : ℕ) (w : api.World) → (poll api n w).0 ≢ panics
  unfolding poll
  poll-ne-panics zero w = λ p. cc
  poll-ne-panics (suc n) w =
      answered (api.get habitat_crd_name w).0 (api.get habitat_crd_name w).1 (poll-ne-panics n)
    where
      decided :
          (b : Bool) (v : api.World)
          → ((u : api.World) → (poll api n u).0 ≢ panics)
          → ((if b then pure tt else poll api n) v).0 ≢ panics
      decided true v later = λ p. cc
      decided false v later = later v

      answered :
          (r : Result api.Failure (List Condition)) (v : api.World)
          → ((u : api.World) → (poll api n u).0 ≢ panics)
          → ((conditions_seen api r >>= λ seen. if seen then pure tt else poll api n) v).0 ≢ panics
      answered (ok cs) v later = decided (is_established cs) v later
      answered (err x) v later = λ p. cc

  pub create_crd-EndsClean : (tries : ℕ) (w : api.World) → EndsClean w (create_crd api tries w)
  unfolding create_crd
  create_crd-EndsClean tries w = answered (api.create crd w).0 refl
    where
      v : api.World
      v = (api.create crd w).1

      waited :
          (o : Outcome (SetupError api.Failure) (Unit {0})) (u : api.World)
          → (api.create crd w).0 ≡ ok tt
          → (o ≡ returns tt → IsEstablished u)
          → o ≢ panics
          → EndsClean w (polled api o u)
      waited (returns tt) u made now n = inl (refl, now refl)
      waited (fails e) u made now n = inr (inr (e, u, made, refl))
      waited panics u made now n = absurd (n refl)

      answered :
          (r : Result api.Failure (Unit {0}))
          → (api.create crd w).0 ≡ r
          → EndsClean w (crd_created api tries r v)
      answered (err e) made = inr (inl (e, made, refl))
      answered (ok tt) made =
          waited (poll api tries v).0 (poll api tries v).1 made (poll-IsEstablished tries v)
            (poll-ne-panics tries v)

  EndsClean-IsEstablished :
      (w : api.World) (r : Outcome (SetupError api.Failure) (Unit {0}) × api.World)
      → EndsClean w r
      → r.0 ≡ returns tt
      → IsEstablished r.1
  EndsClean-IsEstablished w r (inl (_, now)) e = now
  EndsClean-IsEstablished w r (inr (inl (x, _, same))) e =
      absurd (failed_returns r.0 _ _ (ap (λ q. q.0) same) e)
  EndsClean-IsEstablished w r (inr (inr (x, v, _, same))) e =
      absurd (failed_returns r.0 _ _ (ap (λ q. q.0) same) e)

  registered_state :
      (r : Result (SetupError api.Failure) (Unit {0})) (v : api.World) → (registered api r v).1 ≡ v
  registered_state (ok _) v = refl
  registered_state (err e) v = elim (Bool-cases (already_exists api e)) [
    | inl exists ↦ rw exists refl
    | inr other ↦ rw other refl
  ]

  registered_returns :
      (o : Outcome (SetupError api.Failure) (Unit {0})) (v : api.World)
      → (continue (caught o) (registered api) v).0 ≡ returns tt
      → (o ≡ returns tt)
        ⊎ ((e : SetupError api.Failure) × (o ≡ fails e) × (already_exists api e ≡ true))
  registered_returns (returns tt) v h = inl refl
  registered_returns (fails e) v h = elim (Bool-cases (already_exists api e)) [
    | inl exists ↦ inr (e, refl, exists)
    | inr other ↦ cc (other)
  ]
  registered_returns panics v h = cc

  -- Which error `createCRD` passes over.
  exists_plain :
      (e : SetupError api.Failure)
      → already_exists api e ≡ true
      → (x : api.Failure) × (e ≡ plain x) × (api.is_already_exists x ≡ true)
  exists_plain (plain x) it = (x, refl, it)
  exists_plain timed_out it = cc
  exists_plain (aggregate e x) it = cc
  exists_plain (wrap e t) it = cc

  -- `createCRD` returns no error only if the definition is established, or if `CreateCRD` fails with
  -- an error of the server that says that the definition exists already.
  pub register_returns :
      (tries : ℕ) (w : api.World)
      → (register api tries w).0 ≡ returns tt
      → IsEstablished (register api tries w).1
        ⊎ ((x : api.Failure) × ((create_crd api tries w).0 ≡ fails (plain x))
            × (api.is_already_exists x ≡ true))
  unfolding register
  register_returns tries w h =
      let r = create_crd api tries w in
      elim (registered_returns r.0 r.1 h) [
        | inl done ↦ inl (
            subst IsEstablished
              (sym (ap (λ x. (continue x (registered api) r.1).1) (ap caught done)))
              (EndsClean-IsEstablished w r (create_crd-EndsClean tries w) done))
        | inr (e, failed, it) ↦
            let (x, same, exists) = exists_plain e it in inr (x, failed ∙ ap fails same, exists)
      ]
