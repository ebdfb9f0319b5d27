-- ===== src/Conform/Frame.antt =====
-- What `conform` leaves as it is: the Habitat cache and the queue.
use habitat_operator.Base.{
  String, not, Option, none, some, List, Result, ok, err, ◌≡◌, refl, ◌∙◌, pure, throw, attempt,
  ◌>>=◌,
}
use habitat_operator.Types.{Habitat}
use habitat_operator.Kube.Objects.{Labels}
use habitat_operator.Kube.Api.{Api, StoredStatefulSet}
use habitat_operator.Validate.{validate_custom_object}
use habitat_operator.Workload.{Sts, new_stateful_set}
use habitat_operator.Workload.Frame.{new_stateful_set-Keeps}
use habitat_operator.Peer.{handle_config_map}
use habitat_operator.Peer.Frame.{event_then-Keeps, attempt-Keeps, handle_config_map-Keeps}
use habitat_operator.State.{
  State, Error, Found, failed, missing, found, habitat, EventCall, text, check,
}
use habitat_operator.State.Keeps.{Keeps, Keeps-bind, Keeps-if, Keeps-call}
use habitat_operator.Conform.{
  delete_selected, delete_stateful_set_pods, kill_all_pods, update_existing, created, peers_handled,
  built, validated, conform_object, conform,
}

-- What `f` shows is kept by the calls on StatefulSets that exist, and on their pods.
pub record KeepsSets (api : Api) {X : Type 0} (f : State api → X) : Type 0 where
  pub got :
      (ns name : String) (s : State api)
      → f (record s { world = (api.get_stateful_set ns name s.world).1 }) ≡ f s
  pub updated :
      (ns : String) (sts : Sts api) (s : State api)
      → f (record s { world = (api.update_stateful_set ns sts s.world).1 }) ≡ f s
  pub deleted :
      (ns selector : String) (s : State api)
      → f (record s { world = (api.delete_pods ns selector s.world).1 }) ≡ f s

module _ (api : Api) {X : Type 0} (f : State api → X) (sets : KeepsSets api f)
    (events : (s : State api) (es : List EventCall) → f (record s { events = es }) ≡ f s) where
  delete-Keeps : (t : StoredStatefulSet api.Template) → Keeps f (delete_stateful_set_pods api t)
  unfolding delete_stateful_set_pods
  delete-Keeps t s = selected t.match_labels
    where
      selected : (o : Option Labels) → f (delete_selected api t.namespace o s).1 ≡ f s
      selected none = refl
      selected (some l) = answered (api.delete_pods t.namespace (api.selector_from_set l) s.world).0
        where
          answered :
              (r : Result api.Failure (Unit {0}))
              → f
                  (check api r (record s {
                    world = (api.delete_pods t.namespace (api.selector_from_set l) s.world).1;
                  })).1
                ≡ f s
          answered (ok a) = sets.deleted _ _ s
          answered (err e) = sets.deleted _ _ s

  update-Keeps : (h : Habitat) (sts : Sts api) → Keeps f (update_existing api h sts)
  unfolding update_existing
  update-Keeps h sts =
      Keeps-call api f (api.get_stateful_set h.meta.namespace sts.meta.name) _ (sets.got _ _) λ old.
        Keeps-call api f (api.update_stateful_set h.meta.namespace sts) (kill_all_pods api old)
          (sets.updated _ sts)
          λ new.
            Keeps-if f (not (api.deep_equal old.template new.template))
              (delete_stateful_set_pods api new) (pure tt) (delete-Keeps new) λ s. refl

  pub created-Keeps :
      (h : Habitat) (sts : Sts api) (r : Result api.Failure (StoredStatefulSet api.Template))
      → Keeps f (created api h sts r)
  unfolding created
  created-Keeps h sts (ok t) = λ s. events s _
  created-Keeps h sts (err e) =
      Keeps-if f (api.is_already_exists e) (update_existing api h sts) _ (update-Keeps h sts)
        (λ s. events s _)

module _ (api : Api) {X : Type 0} (f : State api → X)
    (worlds : (s : State api) (w : api.World) → f (record s { world = w }) ≡ f s)
    (events : (s : State api) (es : List EventCall) → f (record s { events = es }) ≡ f s) where
  pub any_sets : KeepsSets api f
  any_sets = record {
    got = λ ns name s. worlds s _;
    updated = λ ns sts s. worlds s _;
    deleted = λ ns selector s. worlds s _;
  }

  peers-Keeps :
      (h : Habitat) (r : Result (Error api.Failure) (Unit {0})) → Keeps f (peers_handled api h r)
  unfolding peers_handled
  peers-Keeps h (ok _) = λ s. refl
  peers-Keeps h (err e) = event_then-Keeps api f worlds events _ (throw e) λ s. refl

  module _
      (caches : (s : State api) (c : String → Found api.Failure)
        → f (record s { config_maps = c }) ≡ f s) where
    built-Keeps : (h : Habitat) (r : Result (Error api.Failure) (Sts api)) → Keeps f (built api h r)
    unfolding built
    built-Keeps h (err e) s = event_then-Keeps api f worlds events _ (throw e) (λ t. refl) s
    built-Keeps h (ok sts) s =
        let c = api.create_stateful_set h.meta.namespace sts s.world in
        Keeps-bind f (created api h sts c.0)
          (λ _. attempt (handle_config_map api h) >>= peers_handled api h)
          (created-Keeps api f any_sets events h sts c.0)
          (λ _.
            attempt-Keeps api f worlds events (handle_config_map api h) (peers_handled api h)
              (handle_config_map-Keeps api f worlds events caches h) (peers-Keeps h))
          (record s { world = c.1 })
        ∙ worlds s c.1

    validated-Keeps : (h : Habitat) (r : Result String (Unit {0})) → Keeps f (validated api h r)
    unfolding validated
    validated-Keeps h (err e) = event_then-Keeps api f worlds events _ (throw (text e)) λ s. refl
    validated-Keeps h (ok _) =
        attempt-Keeps api f worlds events (new_stateful_set api h) (built api h)
          (new_stateful_set-Keeps api f (λ _ _ t. worlds t _) h) (built-Keeps h)

    pub conform-Keeps : (k : String) → Keeps f (conform api k)
    unfolding conform conform_object
    conform-Keeps k s = looked (s.habitats k)
      where
        looked : (o : Found api.Failure) → f (conform_object api o s).1 ≡ f s
        looked (failed e) = refl
        looked missing = refl
        looked (found (habitat h)) = validated-Keeps h (validate_custom_object h) s
        looked (found _) = refl
