-- ===== src/Conform/Safety.antt =====
-- Panics of `conform`.
use habitat_operator.Base.{
  String, not, some, Result, ok, err, panics, ◌>>=◌, ◌≡◌, ◌≢◌, refl, sym, subst, pure, attempt,
}
use habitat_operator.Base.Bind.{bind-ne-panics, attempt-ne-panics}
use habitat_operator.Types.{Habitat}
use habitat_operator.Kube.Objects.{Labels}
use habitat_operator.Kube.Api.{Api, StoredStatefulSet}
use habitat_operator.Validate.{validate_custom_object}
use habitat_operator.Validate.Laws.{validate_custom_object_iff}
use habitat_operator.Workload.{Sts, new_stateful_set}
use habitat_operator.Workload.Frame.{new_stateful_set-Keeps}
use habitat_operator.Workload.Total.{new_stateful_set-ne-panics}
use habitat_operator.Peer.{handle_config_map}
use habitat_operator.Peer.Safety.{IsWritable, handle_config_map-ne-panics, if-ne-panics}
use habitat_operator.State.{State, Error, Act, check, Found, failed, missing, found, habitat}
use habitat_operator.State.Checked.{check-ne-panics}
use habitat_operator.Conform.{
  delete_selected, delete_stateful_set_pods, kill_all_pods, update_existing, created, peers_handled,
  built, validated, conform_object, conform,
}
use habitat_operator.Conform.Frame.{created-Keeps, any_sets}

-- A StatefulSet that the server has updated has a selector.
abbrev pub ReturnsSelectors : Api → Type 0
ReturnsSelectors api =
    (namespace : String) (sts : Sts api) (w : api.World) (t : StoredStatefulSet api.Template)
    → (api.update_stateful_set namespace sts w).0 ≡ ok t
    → (labels : Labels) × (t.match_labels ≡ some labels)

module _ (api : Api) where
  -- A call whose error is returned, and what follows a value.
  call-ne-panics :
      {A B : Type 0} (r : Result api.Failure A) (k : A → Act api B) (s : State api)
      → ((a : A) → r ≡ ok a → (k a s).0 ≢ panics)
      → ((check api r >>= k) s).0 ≢ panics
  call-ne-panics (ok a) k s h = h a refl
  call-ne-panics (err e) k s h = λ p. cc

  module _ (h : Habitat) (selectors : ReturnsSelectors api) where
    delete-ne-panics :
        (t : StoredStatefulSet api.Template) (labels : Labels) (s : State api)
        → t.match_labels ≡ some labels
        → (delete_stateful_set_pods api t s).0 ≢ panics
    unfolding delete_stateful_set_pods
    delete-ne-panics t labels s e =
        subst (λ o. (delete_selected api t.namespace o s).0 ≢ panics) (sym e)
          (check-ne-panics api
            (api.delete_pods t.namespace (api.selector_from_set labels) s.world).0 _)

    update-ne-panics : (sts : Sts api) (s : State api) → (update_existing api h sts s).0 ≢ panics
    unfolding update_existing
    update-ne-panics sts s =
        let g = api.get_stateful_set h.meta.namespace sts.meta.name s.world in
        let u = api.update_stateful_set h.meta.namespace sts g.1 in
        call-ne-panics g.0 _ (record s { world = g.1 })
          λ old _.
            call-ne-panics u.0 (kill_all_pods api old) (record s { world = u.1 })
              λ new got.
                let (labels, e) = selectors h.meta.namespace sts g.1 new got in
                if-ne-panics (not (api.deep_equal old.template new.template))
                  (delete_stateful_set_pods api new) (pure tt) (record s { world = u.1 })
                  (delete-ne-panics new labels _ e) λ p. cc

    created-ne-panics :
        (sts : Sts api) (r : Result api.Failure (StoredStatefulSet api.Template)) (s : State api)
        → (created api h sts r s).0 ≢ panics
    unfolding created
    created-ne-panics sts (ok t) s = λ p. cc
    created-ne-panics sts (err e) s =
        if-ne-panics (api.is_already_exists e) (update_existing api h sts) _ s
          (update-ne-panics sts s) λ p. cc

    peers-ne-panics :
        (r : Result (Error api.Failure) (Unit {0})) (s : State api)
        → (peers_handled api h r s).0 ≢ panics
    unfolding peers_handled
    peers-ne-panics (ok _) s = λ p. cc
    peers-ne-panics (err e) s = λ p. cc

    built-ne-panics :
        (r : Result (Error api.Failure) (Sts api)) (s : State api)
        → IsWritable api h s.config_maps
        → (built api h r s).0 ≢ panics
    unfolding built
    built-ne-panics (err e) s writable = λ p. cc
    built-ne-panics (ok sts) s writable =
        let c = api.create_stateful_set h.meta.namespace sts s.world in
        let t = record s { world = c.1 } in
        let r = created api h sts c.0 t in
        let kept =
          created-Keeps api (λ u. u.config_maps)
            (any_sets api (λ u. u.config_maps) (λ _ _. refl) (λ _ _. refl)) (λ _ _. refl) h sts c.0
            t in
        let m = handle_config_map api h r.1 in
        bind-ne-panics r.0 (λ _. attempt (handle_config_map api h) >>= peers_handled api h) r.1
          (created-ne-panics sts c.0 t)
          λ _.
            attempt-ne-panics m.0 (peers_handled api h) m.1
              (handle_config_map-ne-panics api h r.1 (subst (IsWritable api h) (sym kept) writable))
              λ q. peers-ne-panics q m.1

    validated-ne-panics :
        (r : Result String (Unit {0})) (s : State api)
        → validate_custom_object h ≡ r
        → IsWritable api h s.config_maps
        → (validated api h r s).0 ≢ panics
    unfolding validated
    validated-ne-panics (err e) s v writable = λ p. cc
    validated-ne-panics (ok tt) s v writable =
        let (hs, spec, valid) = (validate_custom_object_iff h).0 v in
        let m = new_stateful_set api h s in
        let kept = new_stateful_set-Keeps api (λ u. u.config_maps) (λ _ _ _. refl) h s in
        attempt-ne-panics m.0 (built api h) m.1 (new_stateful_set-ne-panics api h hs s spec valid)
          λ r. built-ne-panics r m.1 (subst (IsWritable api h) (sym kept) writable)

-- A reconciliation never panics, whatever the state of the cluster and the caches, if a StatefulSet
-- that the server returns from an update has a selector, and if, for a Habitat cached under the
-- key, what the cache has under the key of its peer ConfigMap is a ConfigMap with data.
pub conform-ne-panics :
    (api : Api) (k : String) (s : State api)
    → ReturnsSelectors api
    → ((h : Habitat) → s.habitats k ≡ found (habitat h) → IsWritable api h s.config_maps)
    → (conform api k s).0 ≢ panics
unfolding conform conform_object
conform-ne-panics api k s selectors writable = looked (s.habitats k) writable
  where
    looked :
        (o : Found api.Failure)
        → ((h : Habitat) → o ≡ found (habitat h) → IsWritable api h s.config_maps)
        → (conform_object api o s).0 ≢ panics
    looked (failed e) w = λ p. cc
    looked missing w = λ p. cc
    looked (found (habitat h)) w =
        validated-ne-panics api h selectors (validate_custom_object h) s refl (w h refl)
    looked (found _) w = λ p. cc
