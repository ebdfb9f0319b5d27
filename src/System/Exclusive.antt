-- ===== src/System/Exclusive.antt =====
-- Which worker reconciles which key.
use habitat_operator.Base.{ℕ, String, true, Option, none, some, ◌≡◌, refl, sym, ap, ◌∙◌, subst}
use habitat_operator.Kube.Api.{Api}
use habitat_operator.System.Queue.{WorkQueue, Lawful, SameProcessed}
use habitat_operator.System.{
  idle, reconciling, answering, System, apply_all, Step, notify, take, reconciled, answer,
  next_item, delay_over, shut_down, Reach,
}
use habitat_operator.System.Marks.{holds, IsSound, calls-EndsInDone, calls_add, adds_processed}
use habitat_operator.System.Owners.{
  IsExclusive, initial-IsExclusive, same_marks, same_mark, taken, answered,
}

module _ (queues : WorkQueue) (lawful : Lawful queues) (api : Api) (workers : ℕ) where
  Step-IsExclusive :
      {s t : System queues} {o : Option String}
      → Step queues api workers s o t
      → IsExclusive queues lawful s
      → IsExclusive queues lawful t
  Step-IsExclusive (notify s store i e st calls made) v =
      let (keys, same) = calls_add api store i e st calls made in
      same_marks queues lawful s (record s { queue = apply_all queues calls s.queue })
        (subst (λ cs. SameProcessed queues s.queue (apply_all queues cs s.queue)) (sym same)
          (adds_processed queues lawful keys s.queue))
        v.sound (λ j. refl) v
  Step-IsExclusive (take s i k q _ was got) v =
      taken queues lawful s q i k was (lawful.get_hands s.queue q k got) v
  Step-IsExclusive (reconciled s i k st calls was made) v =
      let (ends, mark) = calls-EndsInDone api k st calls made in
      same_mark queues lawful s s.queue i (answering k calls) (λ l. refl) ends
        (mark ∙ sym (ap holds was)) v
  Step-IsExclusive (answer s i k c calls was) v =
      answered queues lawful s i k c calls was (subst IsSound was (v.sound i)) v
  Step-IsExclusive (next_item s i k was) v =
      same_mark queues lawful s s.queue i idle (λ l. refl) tt (sym (ap holds was)) v
  Step-IsExclusive (delay_over s) v =
      same_marks queues lawful s (record s { queue = queues.wait s.queue })
        (lawful.wait_processed s.queue) v.sound (λ j. refl) v
  Step-IsExclusive (shut_down s) v =
      same_marks queues lawful s (record s { queue = queues.shut_down s.queue })
        (lawful.shut_processed s.queue) v.sound (λ j. refl) v

  -- In every state that the controller gets to, the keys that the queue has as processed are exactly
  -- those that workers hold, between `Get` and `Done`; no two workers hold the same key; and what a
  -- worker still has to call ends in `Done` of its key, once.
  pub Reach-IsExclusive :
      {s : System queues} → Reach queues api workers s → IsExclusive queues lawful s
  Reach-IsExclusive Reach.here = initial-IsExclusive queues lawful
  Reach-IsExclusive (Reach.next r st) = Step-IsExclusive st (Reach-IsExclusive r)

  -- Two workers never reconcile the Habitat of the same key at the same time.
  pub reconciled_once :
      {s : System queues} (i j : ℕ) (k : String)
      → Reach queues api workers s
      → s.status i ≡ reconciling k
      → s.status j ≡ reconciling k
      → i ≡ j
  reconciled_once i j k r e f = (Reach-IsExclusive r).unique i j k (ap holds e) (ap holds f)

  -- No key is left behind in the queue: where it hands out none, a worker holds each key that is due,
  -- and still has to call `Done` of it.
  pub due_held :
      {s : System queues} (k : String)
      → Reach queues api workers s
      → queues.get s.queue ≡ none
      → queues.is_due s.queue k ≡ true
      → (i : ℕ) × (holds (s.status i) ≡ some k)
  due_held {s} k r empty due = (Reach-IsExclusive r).busy k (lawful.get_none s.queue empty k due)
