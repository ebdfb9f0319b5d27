-- ===== src/Worker/Responds.antt =====
-- The handlers, the worker and the reconciliation together: what becomes of a change of a Habitat.
use mathlib.Core.List.{append_assoc}
use habitat_operator.Base.{
  String, true, some, [], ◌∷◌, ◌++◌, Outcome, returns, ◌≡◌, ◌≢◌, refl, sym, ◌∙◌, ap, subst,
}
use habitat_operator.Types.{Habitat, V1beta2}
use habitat_operator.Kube.Api.{Api}
use habitat_operator.Validate.Laws.{IsValidSpec}
use habitat_operator.State.{State, Error, found, habitat, add, forget, done}
use habitat_operator.Workload.Total.{Available, HasSize}
use habitat_operator.Peer.Total.{IsCurrent}
use habitat_operator.Workload.{Sts, new_stateful_set}
use habitat_operator.Conform.{conform}
use habitat_operator.Conform.Server.{ServesSet, ServesPeers}
use habitat_operator.Conform.Total.{conform_total}
use habitat_operator.Handlers.{handle_hab_update}
use habitat_operator.Handlers.Eligible.{IsEligible, Adds}
use habitat_operator.Handlers.Wakes.{spec_changed-Adds}
use habitat_operator.Worker.{key, quit, process_next_item, worker}
use habitat_operator.Worker.Laws.{answers, goes_on, process_next_item-answers}

module _ (api : Api) where
  -- A worker that is handed one key, whose reconciliation returns, and is then told to quit.
  worker_once :
      (k : String) (t : State api)
      → (conform api k t).0 ≡ returns tt
      → ((worker api (key k ∷ quit ∷ []) t).0 ≡ returns tt)
        × ((worker api (key k ∷ quit ∷ []) t).1
            ≡ record ((conform api k t).1) { queue = t.queue ++ (forget k ∷ done k ∷ []) })
  unfolding worker process_next_item
  worker_once k t c =
      let (o, q, _) = process_next_item-answers api k t in
      let goes : (process_next_item api (key k) t).0 ≡ returns true = o ∙ ap goes_on c in
      rw goes
        (refl, q ∙ ap (λ x. record ((conform api k t).1) { queue = t.queue ++ answers k x }) c)

  -- A Habitat of this controller is updated with another specification, which is valid; the cache has
  -- the update; and what its reconciliation asks for is there and the server serves, be it that the
  -- StatefulSet and the peer ConfigMap are there or not. Then the handler puts its key in the queue;
  -- and a worker that is handed that key reconciles the Habitat without an error, forgets the key's
  -- failures, calls `Done`, and returns when the queue is shut down. There is no other call on the
  -- queue, and the rest of the state, with the cluster, is what the reconciliation made of it.
  pub update_reconciled :
      (k : String) (old new : Habitat) (hs : V1beta2) (s : State api)
      → old.spec ≢ new.spec
      → IsEligible api new k
      → s.habitats k ≡ found (habitat new)
      → new.spec ≡ some hs
      → IsValidSpec hs
      → Available api new.meta.namespace hs.service.config_secret_name
      → Available api new.meta.namespace hs.service.files_secret_name
      → HasSize api hs.persistent_storage
      → Available api "default" hs.service.ring_secret_name
      → ((t : State api) (sts : Sts api)
          → (new_stateful_set api new t).0 ≡ returns sts
          → ServesSet api new.meta.namespace sts)
      → (peers : ServesPeers api new) → IsCurrent peers s
      → let t = (handle_hab_update api (habitat old) (habitat new) s).1 in
        ((handle_hab_update api (habitat old) (habitat new) s).0 ≡ returns tt)
        × ((conform api k t).0 ≡ returns tt)
        × ((worker api (key k ∷ quit ∷ []) t).0 ≡ returns tt)
        × ((worker api (key k ∷ quit ∷ []) t).1
            ≡ record ((conform api k t).1) { queue = s.queue ++ (add k ∷ forget k ∷ done k ∷ []) })
  update_reconciled k old new hs s differ eligible cached spec valid config files size ring sets
        peers current =
      subst Reconciled (sym woken) (
        refl,
        c,
        w.0,
        w.1
            ∙ ap (λ q. record ((conform api k with_key).1) { queue = q })
                (append_assoc s.queue _ _),
      )
    where
      Reconciled : Outcome (Error api.Failure) (Unit {0}) × State api → Type 0
      Reconciled r =
          (r.0 ≡ returns tt)
          × ((conform api k r.1).0 ≡ returns tt)
          × ((worker api (key k ∷ quit ∷ []) r.1).0 ≡ returns tt)
          × ((worker api (key k ∷ quit ∷ []) r.1).1 ≡ record ((conform api k r.1).1) {
            queue = s.queue ++ (add k ∷ forget k ∷ done k ∷ []);
          })

      with_key : State api
      with_key = record s { queue = s.queue ++ (add k ∷ []) }

      woken : Adds api s (k ∷ []) (handle_hab_update api (habitat old) (habitat new) s)
      woken = spec_changed-Adds api old new k s differ eligible

      c : (conform api k with_key).0 ≡ returns tt
      c =
          conform_total api k new hs with_key cached spec valid config files size ring
            (sets with_key) peers current

      w :
          ((worker api (key k ∷ quit ∷ []) with_key).0 ≡ returns tt)
          × ((worker api (key k ∷ quit ∷ []) with_key).1 ≡ record ((conform api k with_key).1) {
            queue = with_key.queue ++ (forget k ∷ done k ∷ []);
          })
      w = worker_once k with_key c
