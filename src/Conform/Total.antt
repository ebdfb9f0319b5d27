-- ===== src/Conform/Total.antt =====
-- When `conform` returns no error, and what it does with a Habitat that is not valid.
use habitat_operator.Base.{
  String, true, some, [], ◌∷◌, ◌++◌, Result, ok, err, Outcome, returns, fails, ◌≡◌, ◌≢◌, refl, sym,
  subst, ◌∙◌, inl, inr, Bool-cases, continue, attempt, ◌>>=◌,
}
use habitat_operator.Types.{Habitat, V1beta2}
use habitat_operator.Kube.Api.{Api}
use habitat_operator.Validate.{validate_custom_object}
use habitat_operator.Validate.Laws.{IsValid, IsValidSpec, validate_custom_object_iff}
use habitat_operator.Workload.{Sts, new_stateful_set}
use habitat_operator.Workload.Frame.{new_stateful_set-Keeps}
use habitat_operator.Workload.Total.{Available, HasSize, new_stateful_set_total}
use habitat_operator.Peer.{handle_config_map}
use habitat_operator.Peer.Total.{HoldsPeers, IsCurrent, handle_config_map_total}
use habitat_operator.Conform.Server.{ServesSet, ServesPeers}
use habitat_operator.State.{State, Error, text, found, habitat, event, warning}
use habitat_operator.Conform.{
  update_existing, created, peers_handled, built, validated, conform_object, conform,
  validation_failed, message_validation_failed,
}
use habitat_operator.Conform.Frame.{KeepsSets, any_sets, created-Keeps}

module _ (api : Api) (h : Habitat) (sts : Sts api) (set : ServesSet api h.meta.namespace sts) where
  update_total :
      (s : State api) → set.is_there s.world ≡ true → (update_existing api h sts s).0 ≡ returns tt
  unfolding update_existing
  update_total s there =
      let w = (api.get_stateful_set h.meta.namespace sts.meta.name s.world).1 in
      let (t, e, still) = set.got s.world there in
      let (u, labels, e', selector) = set.updated w still in
      rw (e, e')
        (elim (Bool-cases (api.deep_equal t.template u.template)) [
          | inl same ↦ rw same refl
          | inr differ ↦
              rw (differ, selector, set.deleted u.namespace (api.selector_from_set labels) _) refl
        ])

  created_total :
      (s : State api)
      → let c = api.create_stateful_set h.meta.namespace sts s.world in
        (created api h sts c.0 (record s { world = c.1 })).0 ≡ returns tt
  unfolding created
  created_total s = elim (Bool-cases (set.is_there s.world)) [
    | inl there ↦
        let (x, e, exists, still) = set.refused s.world there in
        rw (e, exists) (update_total _ still)
    | inr absent ↦ let (t, e) = set.created s.world absent in rw e refl
  ]

module _ (api : Api) (h : Habitat) (peers : ServesPeers api h) where
  keeps_held : KeepsSets api (λ (u : State api). peers.held u.world)
  keeps_held = record {
    got = λ ns name s. peers.after_get ns name s.world;
    updated = λ ns sts s. peers.after_update ns sts s.world;
    deleted = λ ns selector s. peers.after_delete ns selector s.world;
  }

  -- The cache stays in step, where neither it nor the ConfigMap changes.
  still-IsCurrent :
      (s t : State api)
      → t.config_maps ≡ s.config_maps
      → peers.held t.world ≡ peers.held s.world
      → IsCurrent peers s
      → IsCurrent peers t
  still-IsCurrent s t cache same current m ip there =
      subst (λ c. HoldsPeers api h c m ip) (sym cache) (current m ip (sym same ∙ there))

  -- The peers' ConfigMap, after an action that returned.
  peers_total :
      (o : Outcome (Error api.Failure) (Unit {0})) (t : State api)
      → o ≡ returns tt
      → IsCurrent peers t
      → (continue o (λ _. attempt (handle_config_map api h) >>= peers_handled api h) t).0
        ≡ returns tt
  unfolding peers_handled
  peers_total o t e current = rw (e, handle_config_map_total api h peers t current) refl

  built_total :
      (sts : Sts api) (s : State api)
      → ServesSet api h.meta.namespace sts
      → IsCurrent peers s
      → (built api h (ok sts) s).0 ≡ returns tt
  unfolding built
  built_total sts s set current =
      let c = api.create_stateful_set h.meta.namespace sts s.world in
      let t = record s { world = c.1 } in
      peers_total (created api h sts c.0 t).0 (created api h sts c.0 t).1
        (created_total api h sts set s)
        (still-IsCurrent s (created api h sts c.0 t).1
          (created-Keeps api (λ u. u.config_maps)
            (any_sets api (λ u. u.config_maps) (λ _ _. refl) (λ _ _. refl)) (λ _ _. refl) h sts c.0
            t)
          (created-Keeps api (λ u. peers.held u.world) keeps_held (λ _ _. refl) h sts c.0 t
            ∙ peers.after_create h.meta.namespace sts s.world)
          current)

-- The reconciliation of a valid Habitat succeeds if what it asks for is there and the server
-- serves: every Secret that it names can be fetched, the ring's from the namespace `default` and
-- the others from its own, and the size of its storage parses; the server creates the StatefulSet
-- if it is not there, and else can fetch it and accepts the update; it accepts deletions of pods; and
-- it creates the peer ConfigMap if it is not there, and else the cache has it, with data, in the
-- version of the server, which accepts updates of that.
pub conform_total :
    (api : Api) (k : String) (h : Habitat) (hs : V1beta2) (s : State api)
    → s.habitats k ≡ found (habitat h)
    → h.spec ≡ some hs
    → IsValidSpec hs
    → Available api h.meta.namespace hs.service.config_secret_name
    → Available api h.meta.namespace hs.service.files_secret_name
    → HasSize api hs.persistent_storage
    → Available api "default" hs.service.ring_secret_name
    → ((sts : Sts api)
        → (new_stateful_set api h s).0 ≡ returns sts
        → ServesSet api h.meta.namespace sts)
    → (peers : ServesPeers api h) → IsCurrent peers s
    → (conform api k s).0 ≡ returns tt
unfolding conform conform_object validated
conform_total api k h hs s cached spec v config files size ring sets peers current =
    let (sts, e) = new_stateful_set_total api h hs s spec v config files size ring in
    let t = (new_stateful_set api h s).1 in
    rw (cached, (validate_custom_object_iff h).1 (hs, spec, v), e)
      (built_total api h peers sts t (sets sts e) (
        still-IsCurrent api h peers s t
          (new_stateful_set-Keeps api (λ u. u.config_maps) (λ _ _ _. refl) h s)
          (new_stateful_set-Keeps api (λ u. peers.held u.world)
            (λ ns name u. peers.after_secret ns name u.world) h s)
          current))

rejected : (r : Result String (Unit {0})) → r ≢ ok tt → (m : String) × (r ≡ err m)
rejected (ok tt) n = absurd (n refl)
rejected (err m) n = (m, refl)

-- A cached Habitat that is not valid is refused with an error, and a warning is recorded. Nothing
-- else happens: the cluster is not called.
pub conform-not-IsValid :
    (api : Api) (k : String) (h : Habitat) (s : State api)
    → s.habitats k ≡ found (habitat h)
    → ¬ IsValid h
    → (m : String) × (conform api k s ≡ (
      fails (text m),
      record s {
        events =
            s.events ++ (event h.meta warning validation_failed message_validation_failed ∷ []);
      },
    ))
unfolding conform conform_object validated
conform-not-IsValid api k h s cached n =
    let (m, e) =
      rejected (validate_custom_object h) (λ p. n ((validate_custom_object_iff h).0 p)) in
    (m, rw (cached, e) refl)
