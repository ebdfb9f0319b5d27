-- ===== src/Handlers/Eligible.antt =====
-- What a handler's action puts in the queue, and the actions that the handlers are made of.
use mathlib.Core.List.{append-nil, append_assoc, map-append}
use habitat_operator.Base.{
  String, ◌==◌, Bool, true, false, some, List, [], ◌∷◌, ◌++◌, map, Result, ok, err, Outcome,
  returns, fails, panics, attempt, caught, continue, ◌>>=◌, ◌≡◌, ◌≢◌, refl, sym, ◌∙◌, ap, All,
  All-append, Among, inl, inr, if◌then◌else◌, subst,
}
use habitat_operator.Types.{Habitat}
use habitat_operator.Kube.Objects.{Meta}
use habitat_operator.Kube.Api.{Api}
use habitat_operator.Labels.{habitat_key_from_labeled_resource}
use habitat_operator.Validate.{check_custom_version_match}
use habitat_operator.Validate.Laws.{check_custom_version_match_iff}
use habitat_operator.State.{Act, State, Error, Found, failed, missing, found, Object, habitat, add}
use habitat_operator.Handlers.{
  enqueue_key, enqueue_checked, enqueue, habitat_at, at_key, get_habitat_from_labeled_resource,
  enqueue_found, enqueue_owner, enqueue_in, enqueue_all,
}

module _ (api : Api) where
  -- The key of a Habitat that this controller handles.
  abbrev pub IsEligible : Habitat → String → Type 0
  IsEligible h k = (h.custom_version ≡ some "v1beta2") × (api.meta_key h.meta ≡ ok k)

  -- The action returns, puts these keys in the queue, and changes nothing else.
  abbrev pub Adds :
      State api → List String → Outcome (Error api.Failure) (Unit {0}) × State api → Type 0
  Adds s keys r = r ≡ (returns tt, record s { queue = s.queue ++ map add keys })

  pub Adds-nil : (s : State api) → Adds s [] (returns tt, s)
  Adds-nil s = ap (λ q. (returns tt, record s { queue = q })) (sym (append-nil s.queue))

  pub enqueue-Adds :
      (h : Habitat) (k : String) (s : State api)
      → IsEligible h k
      → Adds s (k ∷ []) (enqueue api h s)
  unfolding enqueue
  enqueue-Adds h k s (v, key) =
      rw ((check_custom_version_match_iff h.custom_version).1 v, enqueue_checked, key) refl

module _ (api : Api) (P : Habitat → Type 0) where
  -- It does so with keys of Habitats that are this controller's, and of which `P` holds.
  abbrev pub AddsEligible : State api → Outcome (Error api.Failure) (Unit {0}) × State api → Type 0
  AddsEligible s r =
      (keys : List String) × All (λ k. (h : Habitat) × P h × IsEligible api h k) keys
      × Adds api s keys r

  pub AddsEligible-nil : (s : State api) → AddsEligible s (returns tt, s)
  AddsEligible-nil s = ([], tt, Adds-nil api s)

  pub enqueue-AddsEligible : (h : Habitat) (s : State api) → P h → AddsEligible s (enqueue api h s)
  unfolding enqueue
  enqueue-AddsEligible h s known = checked (check_custom_version_match h.custom_version) refl
    where
      keyed :
          h.custom_version ≡ some "v1beta2"
          → (k : Result api.Failure String) → api.meta_key h.meta ≡ k
          → AddsEligible s (enqueue_key api k s)
      keyed v (ok k) e = (k ∷ [], ((h, known, (v, e)), tt), refl)
      keyed v (err x) e = AddsEligible-nil s

      checked :
          (r : Result String (Unit {0}))
          → check_custom_version_match h.custom_version ≡ r
          → AddsEligible s (enqueue_checked api h r s)
      checked (ok u) e =
          keyed ((check_custom_version_match_iff h.custom_version).0 e) (api.meta_key h.meta) refl
      checked (err x) e = AddsEligible-nil s

  habitat_at_state :
      (k : String) (o : Found api.Failure) (s : State api) → (habitat_at api k o s).1 ≡ s
  habitat_at_state k (failed e) s = refl
  habitat_at_state k missing s = refl
  habitat_at_state k (found (habitat h)) s = refl
  habitat_at_state k (found _) s = refl

  habitat_at-ne-panics :
      (k : String) (o : Found api.Failure) (s : State api) → (habitat_at api k o s).0 ≢ panics
  habitat_at-ne-panics k (failed e) s = λ p. cc
  habitat_at-ne-panics k missing s = λ p. cc
  habitat_at-ne-panics k (found (habitat h)) s = λ p. cc
  habitat_at-ne-panics k (found _) s = λ p. cc

  habitat_at_cached :
      (k : String) (o : Found api.Failure) (s : State api) (h : Habitat)
      → (habitat_at api k o s).0 ≡ returns h
      → o ≡ found (habitat h)
  habitat_at_cached k (failed e) s h p = cc
  habitat_at_cached k missing s h p = cc
  habitat_at_cached k (found (habitat g)) s h p = cc
  habitat_at_cached k (found _) s h p = cc

  -- What a handler does once a lookup has given a Habitat, or an error.
  after_lookup :
      (o : Outcome (Error api.Failure) Habitat) (s : State api)
      → o ≢ panics
      → ((h : Habitat) → o ≡ returns h → P h)
      → AddsEligible s (continue (caught o) (enqueue_found api) s)
  after_lookup (returns h) s n known = enqueue-AddsEligible h s (known h refl)
  after_lookup (fails e) s n known = AddsEligible-nil s
  after_lookup panics s n known = absurd (n refl)

  pub owner-AddsEligible :
      (m : Meta) (s : State api)
      → ((k : String) (h : Habitat) → s.habitats k ≡ found (habitat h) → P h)
      → AddsEligible s (enqueue_owner api m s)
  unfolding get_habitat_from_labeled_resource
  owner-AddsEligible m s known = looked (habitat_key_from_labeled_resource m)
    where
      looked :
          (r : Result String String)
          → AddsEligible s ((attempt (at_key api r) >>= enqueue_found api) s)
      looked (err e) = AddsEligible-nil s
      looked (ok k) =
          let o = s.habitats k in
          subst
            (λ t. AddsEligible s (continue (caught (habitat_at api k o s).0) (enqueue_found api) t))
            (sym (habitat_at_state k o s))
            (after_lookup (habitat_at api k o s).0 s (habitat_at-ne-panics k o s)
              (λ h e. known k h (habitat_at_cached k o s h e)))

  -- A guard in front of an action.
  pub if-AddsEligible :
      (b : Bool) (m n : Act api (Unit {0})) (s : State api)
      → AddsEligible s (m s)
      → AddsEligible s (n s)
      → AddsEligible s ((if b then m else n) s)
  if-AddsEligible true m n s h k = h
  if-AddsEligible false m n s h k = k

  in-AddsEligible :
      (ns : String) (o : Object) (s : State api)
      → ((h : Habitat) → o ≡ habitat h → P h)
      → AddsEligible s (enqueue_in api ns o s)
  in-AddsEligible ns (habitat h) s known =
      if-AddsEligible (h.meta.namespace == ns) _ _ s (enqueue-AddsEligible h s (known h refl))
        (AddsEligible-nil s)
  in-AddsEligible ns _ s known = AddsEligible-nil s

  pub all-AddsEligible :
      (ns : String) (store : List Object) (s : State api)
      → ((h : Habitat) → Among (habitat h) store → P h)
      → AddsEligible s (enqueue_all api ns store s)
  unfolding enqueue_all
  all-AddsEligible ns [] s known = AddsEligible-nil s
  all-AddsEligible ns (o ∷ store) s known =
      let (ks, a, e) = in-AddsEligible ns o s (λ h e. known h (inl (sym e))) in
      let t = record s { queue = s.queue ++ map add ks } in
      let (js, b, f) = all-AddsEligible ns store t (λ h m. known h (inr m)) in
      (
        ks ++ js,
        All-append _ ks js a b,
        ap (λ r. continue r.0 (λ _. enqueue_all api ns store) r.1) e
            ∙ f
            ∙ ap (λ q. (returns tt, record s { queue = q }))
                (append_assoc s.queue (map add ks) (map add js)
                  ∙ ap (λ l. s.queue ++ l) (sym (map-append add ks js))),
      )
