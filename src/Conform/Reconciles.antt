-- ===== src/Conform/Reconciles.antt =====
-- The abstract step on the StatefulSet, and the calls that take it.
use habitat_operator.Base.{
  true, false, Option, none, some, Result, ok, err, returns, ◌>>=◌, ◌≡◌, refl, Bool-cases, inl, inr,
}
use habitat_operator.Types.{Habitat}
use habitat_operator.Kube.Objects.{Labels}
use habitat_operator.Kube.Api.{Api, StoredStatefulSet}
use habitat_operator.Workload.{Sts}
use habitat_operator.State.{State, Act, check}
use habitat_operator.Conform.{
  delete_selected, delete_stateful_set_pods, kill_all_pods, update_existing, created,
}

-- Between two states of the cluster the StatefulSet was created; or it existed and was updated, and
-- its template is the same; or it existed and was updated, its template is another, and the pods
-- that it selects were deleted.
pub data Reconciles (api : Api) (h : Habitat) (sts : Sts api) (before after : api.World)
    : Type 0 where
  made :
      (t : StoredStatefulSet api.Template)
      → api.create_stateful_set h.meta.namespace sts before ≡ (ok t, after)
      → Reconciles api h sts before after
  kept :
      (e : api.Failure) (old new : StoredStatefulSet api.Template) (u v : api.World)
      → api.create_stateful_set h.meta.namespace sts before ≡ (err e, u)
      → api.is_already_exists e ≡ true
      → api.get_stateful_set h.meta.namespace sts.meta.name u ≡ (ok old, v)
      → api.update_stateful_set h.meta.namespace sts v ≡ (ok new, after)
      → api.deep_equal old.template new.template ≡ true
      → Reconciles api h sts before after
  restarted :
      (e : api.Failure) (old new : StoredStatefulSet api.Template) (u v w : api.World)
      (labels : Labels)
      → api.create_stateful_set h.meta.namespace sts before ≡ (err e, u)
      → api.is_already_exists e ≡ true
      → api.get_stateful_set h.meta.namespace sts.meta.name u ≡ (ok old, v)
      → api.update_stateful_set h.meta.namespace sts v ≡ (ok new, w)
      → api.deep_equal old.template new.template ≡ false
      → new.match_labels ≡ some labels
      → api.delete_pods new.namespace (api.selector_from_set labels) w ≡ (ok tt, after)
      → Reconciles api h sts before after

module _ (api : Api) (h : Habitat) (sts : Sts api) (s : State api) where
  abbrev at_world : api.World → State api
  at_world w = record s { world = w }

  -- Deleting the pods, where it returned.
  deleted :
      (t : StoredStatefulSet api.Template) (w : api.World) (o : Option Labels)
      → (delete_selected api t.namespace o (at_world w)).0 ≡ returns tt
      → (labels : Labels) × (o ≡ some labels)
        × (api.delete_pods t.namespace (api.selector_from_set labels) w
            ≡ (ok tt, (delete_selected api t.namespace o (at_world w)).1.world))
  deleted t w none e = cc
  deleted t w (some labels) e =
      let call = api.delete_pods t.namespace (api.selector_from_set labels) w in
      answered call.0 call.1 refl e
    where
      answered :
          (r : Result api.Failure (Unit {0})) (v : api.World)
          → api.delete_pods t.namespace (api.selector_from_set labels) w ≡ (r, v)
          → (check api r (at_world v)).0 ≡ returns tt
          → (l : Labels) × (some labels ≡ some l)
            × (api.delete_pods t.namespace (api.selector_from_set l) w
                ≡ (ok tt, (check api r (at_world v)).1.world))
      answered (ok tt) v call e = (labels, refl, call)
      answered (err x) v call e = cc

  module _ (e : api.Failure) (before u : api.World)
      (refused : api.create_stateful_set h.meta.namespace sts before ≡ (err e, u))
      (exists : api.is_already_exists e ≡ true) where
    killed :
        (old new : StoredStatefulSet api.Template) (v w : api.World)
        → api.get_stateful_set h.meta.namespace sts.meta.name u ≡ (ok old, v)
        → api.update_stateful_set h.meta.namespace sts v ≡ (ok new, w)
        → (kill_all_pods api old new (at_world w)).0 ≡ returns tt
        → Reconciles api h sts before (kill_all_pods api old new (at_world w)).1.world
    unfolding kill_all_pods delete_stateful_set_pods
    killed old new v w got updated e' =
        elim (Bool-cases (api.deep_equal old.template new.template)) [
          | inl same ↦ rw same (kept e old new u v refused exists got updated same)
          | inr differ ↦
              let (labels, selector, call) = deleted new w new.match_labels (rw differ at e') in
              rw differ
                (restarted e old new u v w labels refused exists got updated differ selector call)
        ]

    updated_step :
        (old : StoredStatefulSet api.Template) (v : api.World)
        (r : Result api.Failure (StoredStatefulSet api.Template)) (w : api.World)
        → api.get_stateful_set h.meta.namespace sts.meta.name u ≡ (ok old, v)
        → api.update_stateful_set h.meta.namespace sts v ≡ (r, w)
        → ((check api r >>= kill_all_pods api old) (at_world w)).0 ≡ returns tt
        → Reconciles api h sts before ((check api r >>= kill_all_pods api old) (at_world w)).1.world
    updated_step old v (ok new) w got updated e' = killed old new v w got updated e'
    updated_step old v (err x) w got updated e' = cc

    existing_step :
        (update_existing api h sts (at_world u)).0 ≡ returns tt
        → Reconciles api h sts before (update_existing api h sts (at_world u)).1.world
    unfolding update_existing
    existing_step e' =
        let g = api.get_stateful_set h.meta.namespace sts.meta.name u in got_step g.0 g.1 refl e'
      where
        next : StoredStatefulSet api.Template → Act api (Unit {0})
        next old t =
            let c = api.update_stateful_set h.meta.namespace sts t.world in
            (check api c.0 >>= kill_all_pods api old) (record t { world = c.1 })

        got_step :
            (r : Result api.Failure (StoredStatefulSet api.Template)) (v : api.World)
            → api.get_stateful_set h.meta.namespace sts.meta.name u ≡ (r, v)
            → ((check api r >>= next) (at_world v)).0 ≡ returns tt
            → Reconciles api h sts before ((check api r >>= next) (at_world v)).1.world
        got_step (ok old) v got e' =
            let c = api.update_stateful_set h.meta.namespace sts v in
            updated_step old v c.0 c.1 got refl e'
        got_step (err x) v got e' = cc

  pub created_step :
      (r : Result api.Failure (StoredStatefulSet api.Template)) (u : api.World)
      → api.create_stateful_set h.meta.namespace sts s.world ≡ (r, u)
      → (created api h sts r (at_world u)).0 ≡ returns tt
      → Reconciles api h sts s.world (created api h sts r (at_world u)).1.world
  unfolding created
  created_step (ok t) u c e' = made t c
  created_step (err e) u c e' = elim (Bool-cases (api.is_already_exists e)) [
    | inl exists ↦ rw exists (existing_step e s.world u c exists (rw exists at e'))
    | inr other ↦ cc other
  ]
