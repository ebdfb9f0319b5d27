-- ===== src/Conform/Steps.antt =====
-- The abstract step that a reconciliation takes on the StatefulSet, and `conform` as one.
use habitat_operator.Base.{
  String, Result, ok, err, Outcome, returns, fails, panics, continue, caught, ◌>>=◌, ◌≡◌, refl, sym,
  ap, ◌∙◌, subst, attempt,
}
use habitat_operator.Base.Bind.{continue_returns, bind-of_returns}
use habitat_operator.Types.{Habitat}
use habitat_operator.Kube.Api.{Api}
use habitat_operator.Validate.{validate_custom_object}
use habitat_operator.Validate.Laws.{IsValid, validate_custom_object_iff}
use habitat_operator.Workload.{Sts, new_stateful_set}
use habitat_operator.Peer.{handle_config_map}
use habitat_operator.State.{State, Error, Act, found, habitat}
use habitat_operator.Conform.{created, peers_handled, built, validated, conform_object, conform}
use habitat_operator.Conform.Reconciles.{Reconciles, created_step}

-- What a reconciliation that returned, from `s` to `t`, has gone through.
pub record Steps (api : Api) (h : Habitat) (s t : State api) : Type 0 where
  pub valid : IsValid h
  pub sts : Sts api
  pub assembled : State api
  pub assembles : new_stateful_set api h s ≡ (returns sts, assembled)
  pub reconciled : State api
  pub reconciles : Reconciles api h sts assembled.world reconciled.world
  pub elects : handle_config_map api h reconciled ≡ (returns tt, t)

module _ (api : Api) (h : Habitat) where
  peers_steps :
      (o : Outcome (Error api.Failure) (Unit {0})) (u t : State api)
      → handle_config_map api h t ≡ (o, u)
      → (continue (caught o) (peers_handled api h) u).0 ≡ returns tt
      → handle_config_map api h t ≡ (returns tt, (continue (caught o) (peers_handled api h) u).1)
  unfolding peers_handled
  peers_steps (returns tt) u t m e = m
  peers_steps (fails x) u t m e = cc
  peers_steps panics u t m e = cc

  built-Steps :
      (s b : State api) (sts : Sts api)
      → IsValid h
      → new_stateful_set api h s ≡ (returns sts, b)
      → (built api h (ok sts) b).0 ≡ returns tt
      → Steps api h s (built api h (ok sts) b).1
  unfolding built
  built-Steps s b sts v m e =
      let c = api.create_stateful_set h.meta.namespace sts b.world in
      let r = created api h sts c.0 (record b { world = c.1 }) in
      let rest : Unit {0} → Act api (Unit {0}) =
        λ _. attempt (handle_config_map api h) >>= peers_handled api h in
      let (_, done, after) = continue_returns r.0 rest r.1 tt e in
      let p = handle_config_map api h r.1 in
      record {
        valid = v;
        sts = sts;
        assembled = b;
        assembles = m;
        reconciled = r.1;
        reconciles = created_step api h sts b c.0 c.1 refl done;
        elects =
            peers_steps p.0 p.1 r.1 refl after
            ∙ ap (λ (x : Outcome (Error api.Failure) (Unit {0}) × State api). (returns tt, x.1))
                (sym (bind-of_returns r.0 rest r.1 tt done));
      }

  assembled-Steps :
      (o : Outcome (Error api.Failure) (Sts api)) (s b : State api)
      → IsValid h
      → new_stateful_set api h s ≡ (o, b)
      → (continue (caught o) (built api h) b).0 ≡ returns tt
      → Steps api h s (continue (caught o) (built api h) b).1
  unfolding built
  assembled-Steps (returns sts) s b v m e = built-Steps s b sts v m e
  assembled-Steps (fails x) s b v m e = cc
  assembled-Steps panics s b v m e = cc

  validated-Steps :
      (r : Result String (Unit {0})) (s : State api)
      → validate_custom_object h ≡ r
      → (validated api h r s).0 ≡ returns tt
      → Steps api h s (validated api h r s).1
  unfolding validated
  validated-Steps (ok tt) s v e =
      let m = new_stateful_set api h s in
      assembled-Steps m.0 s m.1 ((validate_custom_object_iff h).0 v) refl e
  validated-Steps (err x) s v e = cc

-- A reconciliation of a cached Habitat that returns without an error has found it valid, has built
-- its StatefulSet, and has taken the abstract step with it: the StatefulSet was created; or it
-- existed, was updated and kept its template, and no pods were deleted; or it existed and was
-- updated with another template, and the pods that it selects were deleted. Then `handleConfigMap`
-- ran, without an error, and nothing came after it.
pub conform-Steps :
    (api : Api) (k : String) (h : Habitat) (s : State api)
    → s.habitats k ≡ found (habitat h)
    → (conform api k s).0 ≡ returns tt
    → Steps api h s (conform api k s).1
unfolding conform conform_object
conform-Steps api k h s cached e =
    subst (λ o. (conform_object api o s).0 ≡ returns tt → Steps api h s (conform_object api o s).1)
      (sym cached) (validated-Steps api h (validate_custom_object h) s refl) e
