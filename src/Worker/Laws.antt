-- ===== src/Worker/Laws.antt =====
-- What `processNextItem` tells the work queue.
use habitat_operator.Base.{
  String, Bool, true, List, [], ◌∷◌, ◌++◌, Outcome, returns, fails, panics, ◌≡◌, refl, ◌∙◌, ap,
}
use mathlib.Core.List.{append_assoc}
use habitat_operator.Kube.Api.{Api}
use habitat_operator.State.{State, Error, QueueCall, add_rate_limited, forget, done}
use habitat_operator.Conform.{conform}
use habitat_operator.Conform.Frame.{conform-Keeps}
use habitat_operator.Worker.{key, conformed, process_next_item}

-- The calls that a reconciliation of `k` with this outcome asks for.
abbrev pub answers : {E : Type 0} → String → Outcome E (Unit {0}) → List QueueCall
answers k (returns _) = forget k ∷ done k ∷ []
answers k (fails e) = add_rate_limited k ∷ done k ∷ []
answers k panics = done k ∷ []

-- Whether the worker goes on after it.
abbrev pub goes_on : {E : Type 0} → Outcome E (Unit {0}) → Outcome E Bool
goes_on (returns _) = returns true
goes_on (fails e) = returns true
goes_on panics = panics

module _ (api : Api) where
  conformed-answers :
      (k : String) (o : Outcome (Error api.Failure) (Unit {0})) (s : State api)
      → ((conformed api k o s).0 ≡ goes_on o)
        × ((conformed api k o s).1 ≡ record s { queue = s.queue ++ answers k o })
  unfolding conformed
  conformed-answers k (returns a) s =
      (refl, ap (λ q. record s { queue = q }) (append_assoc s.queue _ _))
  conformed-answers k (fails e) s =
      (refl, ap (λ q. record s { queue = q }) (append_assoc s.queue _ _))
  conformed-answers k panics s = (refl, refl)

  -- A key from the queue is reconciled, by `conform`, and then answered for. If `conform` fails, the
  -- calls on the queue are to add the key again, rate limited, and then `Done`. If it returns,
  -- they are to forget the key's failures, and then `Done`. In both cases the worker goes on. If
  -- it panics, `Done` is still called, and the panic goes on. There is no other call on the
  -- queue; the rest of the state, with the cluster, is what `conform` leaves; and that has the Habitat
  -- cache as it was.
  pub process_next_item-answers :
      (k : String) (s : State api)
      → let r = conform api k s in
        ((process_next_item api (key k) s).0 ≡ goes_on r.0)
        × ((process_next_item api (key k) s).1 ≡ record (r.1) { queue = s.queue ++ answers k r.0 })
        × (r.1.habitats ≡ s.habitats)
  unfolding process_next_item
  process_next_item-answers k s =
      let r = conform api k s in
      let (o, t) = conformed-answers k r.0 r.1 in
      (
        o,
        t
            ∙ ap (λ q. record (r.1) { queue = q ++ answers k r.0 })
                (conform-Keeps api (λ u. u.queue) (λ _ _. refl) (λ _ _. refl) (λ _ _. refl) k s),
        conform-Keeps api (λ u. u.habitats) (λ _ _. refl) (λ _ _. refl) (λ _ _. refl) k s,
      )
