-- ===== src/System/Marks.antt =====
-- Which key a worker holds, and the calls that the handlers and the workers make.
use mathlib.Core.List.{append_cancel_left}
use habitat_operator.Memory.{eqb}
use habitat_operator.Base.{
  ℕ, String, Option, none, some, List, [], ◌∷◌, ◌++◌, map, Outcome, returns, fails, panics, ◌≡◌,
  ◌≢◌, refl, sym, ap, ◌∙◌, subst, ◌⊎◌, inl, inr, Bool-cases, arith,
}
use habitat_operator.Kube.Api.{Api}
use habitat_operator.State.{State, Object, QueueCall, add, add_rate_limited, forget, done}
use habitat_operator.Conform.{conform}
use habitat_operator.Registration.{Informer, Event, registered, deliver}
use habitat_operator.Registration.Delivery.{deliver-AddsEligible}
use habitat_operator.Worker.{key, process_next_item}
use habitat_operator.Worker.Laws.{answers, process_next_item-answers}
use habitat_operator.System.Queue.{WorkQueue, Lawful, SameProcessed}
use habitat_operator.System.{Status, idle, reconciling, answering, apply_all, set}

-- A worker holds a key from when it takes it until it has called `Done`.
abbrev pub holds : Status → Option String
holds idle = none
holds (reconciling k) = some k
holds (answering k []) = none
holds (answering k (c ∷ calls)) = some k

abbrev pub IsQuiet : QueueCall → Type 0
IsQuiet (done _) = ⊥
IsQuiet _ = Unit

-- `Done` of the key is the last call, and there is none before it.
abbrev pub EndsInDone : String → List QueueCall → Type 0
EndsInDone k [] = Unit
EndsInDone k (c ∷ []) = c ≡ done k
EndsInDone k (c ∷ d ∷ calls) = IsQuiet c × EndsInDone k (d ∷ calls)

abbrev pub IsSound : Status → Type 0
IsSound idle = Unit
IsSound (reconciling k) = Unit
IsSound (answering k calls) = EndsInDone k calls

answers-EndsInDone :
    {E : Type 0} (k : String) (o : Outcome E (Unit {0}))
    → EndsInDone k (answers k o) × (holds (answering k (answers k o)) ≡ some k)
answers-EndsInDone k (returns a) = ((tt, refl), refl)
answers-EndsInDone k (fails e) = ((tt, refl), refl)
answers-EndsInDone k panics = (refl, refl)

module _ (api : Api) where
  -- The calls after a reconciliation.
  pub calls-EndsInDone :
      (k : String) (s : State api) (calls : List QueueCall)
      → (process_next_item api (key k) s).1.queue ≡ s.queue ++ calls
      → EndsInDone k calls × (holds (answering k calls) ≡ some k)
  calls-EndsInDone k s calls e =
      subst (λ cs. EndsInDone k cs × (holds (answering k cs) ≡ some k))
        (append_cancel_left s.queue (answers k (conform api k s).0) calls
          (sym (ap (λ t. t.queue) (process_next_item-answers api k s).1) ∙ e))
        (answers-EndsInDone k (conform api k s).0)

  -- The calls of a handler only add keys.
  pub calls_add :
      (store : List Object) (i : Informer) (e : Event) (s : State api) (calls : List QueueCall)
      → (deliver api (registered api store i) e s).1.queue ≡ s.queue ++ calls
      → (keys : List String) × (calls ≡ map add keys)
  calls_add store i e s calls made =
      let (keys, _, adds) = deliver-AddsEligible api store i e s in
      (keys, append_cancel_left s.queue calls (map add keys) (sym made ∙ ap (λ r. r.1.queue) adds))

module _ (queues : WorkQueue) (lawful : Lawful queues) where
  pub quiet_processed :
      (c : QueueCall) (q : queues.Queue) → IsQuiet c → SameProcessed queues q (queues.apply c q)
  quiet_processed (add k) q n = lawful.add_processed k q
  quiet_processed (add_rate_limited k) q n = lawful.limited_processed k q
  quiet_processed (forget k) q n = lawful.forget_processed k q
  quiet_processed (done k) q n = absurd n

  pub adds_processed :
      (keys : List String) (q : queues.Queue)
      → SameProcessed queues q (apply_all queues (map add keys) q)
  adds_processed [] q k = refl
  adds_processed (a ∷ keys) q k =
      adds_processed keys (queues.apply (add a) q) k ∙ lawful.add_processed a q k

  -- The status of a worker after a change of one of them.
  pub set_same : (i : ℕ) (x : Status) (f : ℕ → Status) → set queues i x f i ≡ x
  set_same i x f = ground arith

  pub set_other : (i j : ℕ) (x : Status) (f : ℕ → Status) → j ≢ i → set queues i x f j ≡ f j
  set_other i j x f n = ground arith

  pub same_index : (i j : ℕ) → (j ≡ i) ⊎ (j ≢ i)
  same_index i j = elim (Bool-cases (eqb i j)) [
    | inl e ↦ inl (ground arith)
    | inr e ↦ inr (ground arith)
  ]
