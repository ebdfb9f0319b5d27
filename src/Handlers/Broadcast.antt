-- ===== src/Handlers/Broadcast.antt =====
-- Which keys a notification about a ConfigMap puts in the queue.
use mathlib.Core.List.{append_assoc, map-append}
use habitat_operator.Base.{
  String, ◌==◌, eq_iff, some, List, [], ◌∷◌, ◌++◌, map, Result, ok, err, returns, continue, ◌≡◌,
  refl, sym, ◌∙◌, ap, ◌↔◌, ◌⊎◌, inl, inr, Among, Among-append_left, Among-append_right, Bool-cases,
  arith, subst,
}
use habitat_operator.Types.{Habitat}
use habitat_operator.Kube.Objects.{ConfigMap}
use habitat_operator.Kube.Api.{Api}
use habitat_operator.Validate.{check_custom_version_match}
use habitat_operator.Validate.Laws.{check_custom_version_match_iff}
use habitat_operator.State.{
  State, Object, habitat, pod, stateful_set, config_map, tombstone, other, add,
}
use habitat_operator.Handlers.{
  enqueue, enqueue_key, enqueue_checked, enqueue_in, enqueue_all, handle_cm, handle_cm_add,
  handle_cm_update, handle_cm_delete,
}
use habitat_operator.Handlers.Eligible.{Adds, Adds-nil, IsEligible}

same_key : {E A : Type 0} (r : Result E A) (a b : A) → r ≡ ok a → r ≡ ok b → a ≡ b
same_key r a b e f = cc

Among-append : {A : Type 0} (x : A) (xs ys : List A) → Among x (xs ++ ys) → Among x xs ⊎ Among x ys
Among-append x [] ys m = inr m
Among-append x (y ∷ xs) ys (inl e) = inl (inl e)
Among-append x (y ∷ xs) ys (inr m) = elim (Among-append x xs ys m) [
  | inl a ↦ inl (inr a)
  | inr b ↦ inr b
]

module _ (api : Api) where
  -- The object is a Habitat of the namespace that this controller handles, with this key.
  abbrev pub IsConcerned : String → Object → String → Type 0
  IsConcerned ns (habitat h) k = (h.meta.namespace ≡ ns) × IsEligible api h k
  IsConcerned ns _ k = ⊥

  -- The action adds the keys with the property, and no others.
  record AddsExactly (P : String → Type 0) (s : State api) (r : _ × State api) : Type 0 where
    keys : List String
    exact : (k : String) → Among k keys ↔ P k
    adds : Adds api s keys r

  adds_none :
      (P : String → Type 0) (s : State api)
      → ((k : String) → ¬ P k)
      → AddsExactly P s (returns tt, s)
  adds_none P s n = record {
    keys = [];
    exact = λ k. ((λ m. elim m [ ]), (λ p. absurd (n k p)));
    adds = Adds-nil api s;
  }

  enqueue-AddsExactly :
      (h : Habitat) (s : State api) → AddsExactly (IsEligible api h) s (enqueue api h s)
  unfolding enqueue
  enqueue-AddsExactly h s = checked (check_custom_version_match h.custom_version) refl
    where
      keyed :
          h.custom_version ≡ some "v1beta2"
          → (r : Result api.Failure String) → api.meta_key h.meta ≡ r
          → AddsExactly (IsEligible api h) s (enqueue_key api r s)
      keyed v (ok k) e = record {
        keys = k ∷ [];
        exact = λ j. (
          (λ m. elim m [ inl same ↦ (v, e ∙ ap ok (sym same)) | inr n ↦ elim n [ ] ]),
          (λ p. inl (same_key _ j k p.1 e)),
        );
        adds = refl;
      }
      keyed v (err x) e = adds_none _ s (λ k p. differ (sym e ∙ p.1))
        where
          differ : {k : String} → err x ≡ ok k → ⊥
          differ f = cc

      checked :
          (r : Result String (Unit {0}))
          → check_custom_version_match h.custom_version ≡ r
          → AddsExactly (IsEligible api h) s (enqueue_checked api h r s)
      checked (ok u) e =
          keyed ((check_custom_version_match_iff h.custom_version).0 e) (api.meta_key h.meta) refl
      checked (err x) e =
          adds_none _ s
            (λ k p. differ (sym e ∙ (check_custom_version_match_iff h.custom_version).1 p.0))
        where
          differ : {u : Unit {0}} → err x ≡ ok u → ⊥
          differ f = cc

  in-AddsExactly :
      (ns : String) (o : Object) (s : State api)
      → AddsExactly (IsConcerned ns o) s (enqueue_in api ns o s)
  in-AddsExactly ns (habitat h) s = elim (Bool-cases (h.meta.namespace == ns)) [
    | inl same ↦
        let a = enqueue-AddsExactly h s in
        rw same (record {
          keys = a.keys;
          exact = λ k. (
            (λ m. ((eq_iff h.meta.namespace ns).0 same, (a.exact k).0 m)),
            (λ p. (a.exact k).1 p.1),
          );
          adds = a.adds;
        })
    | inr differs ↦
        rw differs (adds_none _ s (λ k p. ground (arith, eq_iff h.meta.namespace ns, p.0, differs)))
  ]
  in-AddsExactly ns (pod _) s = adds_none _ s (λ k p. p)
  in-AddsExactly ns (stateful_set _) s = adds_none _ s (λ k p. p)
  in-AddsExactly ns (config_map _) s = adds_none _ s (λ k p. p)
  in-AddsExactly ns (tombstone _ _) s = adds_none _ s (λ k p. p)
  in-AddsExactly ns other s = adds_none _ s (λ k p. p)

  -- Some object of the store is concerned.
  abbrev pub AnyConcerned : String → List Object → String → Type 0
  AnyConcerned ns store k = (o : Object) × Among o store × IsConcerned ns o k

  all-AddsExactly :
      (ns : String) (store : List Object) (s : State api)
      → AddsExactly (AnyConcerned ns store) s (enqueue_all api ns store s)
  unfolding enqueue_all
  all-AddsExactly ns [] s = adds_none _ s (λ k p. elim p.1 [ ])
  all-AddsExactly ns (o ∷ store) s =
      let a = in-AddsExactly ns o s in
      let t = record s { queue = s.queue ++ map add a.keys } in
      let b = all-AddsExactly ns store t in
      record {
        keys = a.keys ++ b.keys;
        exact = λ k. (
          (λ m. elim (Among-append k a.keys b.keys m) [
            | inl here ↦ (o, inl refl, (a.exact k).0 here)
            | inr later ↦ let (p, there, c) = (b.exact k).0 later in (p, inr there, c)
          ]),
          (λ (p, there, c). elim there [
            | inl same ↦
                Among-append_left k a.keys b.keys
                  ((a.exact k).1 (subst (λ x. IsConcerned ns x k) same c))
            | inr later ↦ Among-append_right k a.keys b.keys ((b.exact k).1 (p, later, c))
          ]),
        );
        adds =
            ap (λ r. continue r.0 (λ _. enqueue_all api ns store) r.1) a.adds
            ∙ b.adds
            ∙ ap (λ q. (returns tt, record s { queue = q }))
                (append_assoc s.queue (map add a.keys) (map add b.keys)
                  ∙ ap (λ l. s.queue ++ l) (sym (map-append add a.keys b.keys)));
      }

  -- When a ConfigMap is added, updated or deleted, the keys that are put in the queue are exactly those
  -- of the Habitats in the store that have its namespace and the version `v1beta2`. Nothing else
  -- happens. For an update it is the new ConfigMap's namespace that counts.
  pub handle_cm-Adds :
      (store : List Object) (cm : ConfigMap) (old : Object) (s : State api)
      → (keys : List String) × ((k : String)
          → Among k keys ↔ AnyConcerned cm.meta.namespace store k)
        × Adds api s keys (handle_cm_add api store (config_map cm) s)
        × Adds api s keys (handle_cm_update api store old (config_map cm) s)
        × Adds api s keys (handle_cm_delete api store (config_map cm) s)
  unfolding handle_cm handle_cm_add handle_cm_update handle_cm_delete
  handle_cm-Adds store cm old s =
      let a = all-AddsExactly cm.meta.namespace store s in (a.keys, a.exact, a.adds, a.adds, a.adds)
