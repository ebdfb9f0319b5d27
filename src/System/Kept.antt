-- ===== src/System/Kept.antt =====
-- What becomes of a key that waits in the queue.
use habitat_operator.Base.{
  ◌++◌, fails, String, true, false, Option, some, List, [], ◌∷◌, ◌≡◌, ◌≢◌, refl, sym, ap, ◌∙◌,
  subst, ◌⊎◌, inl, inr, ℕ, Among,
}
use mathlib.Core.List.{append_cancel_left}
use habitat_operator.Types.{Habitat}
use habitat_operator.Kube.Api.{Api}
use habitat_operator.State.{State, Error, Object, habitat, QueueCall, add, add_rate_limited, done}
use habitat_operator.Conform.{conform}
use habitat_operator.Handlers.{handle_hab_update}
use habitat_operator.Handlers.Eligible.{Adds, IsEligible}
use habitat_operator.Handlers.Wakes.{spec_changed-Adds}
use habitat_operator.Registration.{habitats, updated, registered, deliver}
use habitat_operator.Worker.{key, process_next_item}
use habitat_operator.Worker.Laws.{answers, process_next_item-answers}
use habitat_operator.System.Queue.{WorkQueue, Lawful, IsWaiting, KeepsWaiting}
use habitat_operator.System.{
  answering, System, set, apply_all, Step, notify, take, reconciled, answer, next_item, delay_over,
  shut_down, Meanwhile,
}

module _ (queues : WorkQueue) (lawful : Lawful queues) where
  all_open :
      (calls : List QueueCall) (q : queues.Queue)
      → queues.is_open (apply_all queues calls q) ≡ queues.is_open q
  all_open [] q = refl
  all_open (c ∷ calls) q = all_open calls (queues.apply c q) ∙ lawful.apply_open c q

  all_keep :
      (calls : List QueueCall) (q : queues.Queue) → KeepsWaiting queues q (apply_all queues calls q)
  all_keep [] q k opened waits = waits
  all_keep (c ∷ calls) q k opened waits =
      all_keep calls (queues.apply c q) k opened
        (lawful.apply_keeps c q k (sym (all_open calls (queues.apply c q)) ∙ opened) waits)

  -- A call that asks for the key.
  abbrev pub Asks : String → QueueCall → Type 0
  Asks k c = (c ≡ add k) ⊎ (c ≡ add_rate_limited k)

  asked :
      (k : String) (calls : List QueueCall) (q : queues.Queue) (c : QueueCall)
      → Asks k c
      → Among c calls
      → queues.is_open (apply_all queues calls q) ≡ true
      → IsWaiting queues (apply_all queues calls q) k
  asked k [] q c asks there opened = elim there [ ]
  asked k (d ∷ calls) q c asks (inr later) opened =
      asked k calls (queues.apply d q) c asks later opened
  asked k (d ∷ calls) q c asks (inl same) opened =
      all_keep calls (queues.apply d q) k opened
        (subst (λ x. IsWaiting queues (queues.apply x q) k) same (made asks))
    where
      was_open : queues.is_open q ≡ true
      was_open = sym (lawful.apply_open d q) ∙ sym (all_open calls (queues.apply d q)) ∙ opened

      made : Asks k c → IsWaiting queues (queues.apply c q) k
      made (inl e) =
          subst (λ x. IsWaiting queues (queues.apply x q) k) (sym e) (lawful.add_waits k q was_open)
      made (inr e) =
          subst (λ x. IsWaiting queues (queues.apply x q) k) (sym e)
            (lawful.limited_waits k q was_open)

  module _ (api : Api) (workers : ℕ) where
    -- A step opens no queue.
    step_open :
        {s t : System queues} {o : Option String}
        → Step queues api workers s o t
        → queues.is_open t.queue ≡ true
        → queues.is_open s.queue ≡ true
    step_open (notify s store i e st calls made) opened = sym (all_open calls s.queue) ∙ opened
    step_open (take s i k q _ was got) opened = sym (lawful.get_open s.queue q k got) ∙ opened
    step_open (reconciled s i k st calls was made) opened = opened
    step_open (answer s i k c calls was) opened = sym (lawful.apply_open c s.queue) ∙ opened
    step_open (next_item s i k was) opened = opened
    step_open (delay_over s) opened = sym (lawful.wait_open s.queue) ∙ opened
    step_open (shut_down s) opened = absurd (closed (sym (lawful.shut s.queue) ∙ opened))
      where
        closed : false ≡ true → ⊥
        closed e = cc

    -- A step in which no worker takes the key.
    step_keeps :
        {s t : System queues} {o : Option String} (k : String)
        → Step queues api workers s o t
        → ¬ (o ≡ some k)
        → queues.is_open t.queue ≡ true
        → IsWaiting queues s.queue k
        → IsWaiting queues t.queue k
    step_keeps k (notify s store i e st calls made) n opened = all_keep calls s.queue k opened
    step_keeps k (take s i j q _ was got) n opened =
        (lawful.get_hands s.queue q j got).others_wait k (λ same. n (ap some (sym same))) opened
    step_keeps k (reconciled s i j st calls was made) n opened = λ w. w
    step_keeps k (answer s i j c calls was) n opened = lawful.apply_keeps c s.queue k opened
    step_keeps k (next_item s i j was) n opened = λ w. w
    step_keeps k (delay_over s) n opened = lawful.wait_keeps s.queue k opened
    step_keeps k (shut_down s) n opened = absurd (closed (sym (lawful.shut s.queue) ∙ opened))
      where
        closed : false ≡ true → ⊥
        closed e = cc

    Meanwhile-open :
        {k : String} {s t : System queues}
        → Meanwhile queues api workers k s t
        → queues.is_open t.queue ≡ true
        → queues.is_open s.queue ≡ true
    Meanwhile-open Meanwhile.here opened = opened
    Meanwhile-open (Meanwhile.next m st n) opened = Meanwhile-open m (step_open st opened)

    Meanwhile-waits :
        (k : String) {s t : System queues}
        → Meanwhile queues api workers k s t
        → queues.is_open t.queue ≡ true
        → IsWaiting queues s.queue k
        → IsWaiting queues t.queue k
    Meanwhile-waits k Meanwhile.here opened w = w
    Meanwhile-waits k (Meanwhile.next m st n) opened w =
        step_keeps k st n opened (Meanwhile-waits k m (step_open st opened) w)

    -- After a Habitat of this controller was updated with another specification, its key waits in the
    -- queue until a worker takes it, whatever happens in between, as long as the queue is not shut down.
    pub change_waits :
        (s t : System queues) (k : String) (store : List Object) (old new : Habitat)
        (st : State api) (calls : List QueueCall)
        → old.spec ≢ new.spec
        → IsEligible api new k
        → (deliver api
            (registered api store habitats)
            (updated (habitat old) (habitat new))
            st).1.queue
          ≡ st.queue ++ calls
        → Meanwhile queues api workers k (record s { queue = apply_all queues calls s.queue }) t
        → queues.is_open t.queue ≡ true
        → IsWaiting queues t.queue k
    unfolding deliver registered
    change_waits s t k store old new st calls differ eligible made m opened =
        Meanwhile-waits k m opened (
          asked k calls s.queue (add k) (inl refl) (subst (Among (add k)) same (inl refl))
            (Meanwhile-open m opened))
      where
        woken : Adds api st (k ∷ []) (handle_hab_update api (habitat old) (habitat new) st)
        woken = spec_changed-Adds api old new k st differ eligible

        same : add k ∷ [] ≡ calls
        same =
            append_cancel_left st.queue (add k ∷ []) calls (sym (ap (λ r. r.1.queue) woken) ∙ made)

    -- After a reconciliation has failed, and the worker has made its first call on the queue, the key
    -- waits in the queue, if need be for its delay, until a worker takes it, whatever happens in
    -- between, as long as the queue is not shut down.
    pub failure_waits :
        (s t : System queues) (i : ℕ) (k : String) (st : State api) (e : Error api.Failure)
        (c : QueueCall) (calls : List QueueCall)
        → (conform api k st).0 ≡ fails e
        → (process_next_item api (key k) st).1.queue ≡ st.queue ++ (c ∷ calls)
        → Meanwhile queues api workers k
            (record {
              queue = queues.apply c s.queue;
              status = set queues i (answering k calls) s.status;
            })
            t
        → queues.is_open t.queue ≡ true
        → IsWaiting queues t.queue k
    failure_waits s t i k st e c calls failed made m opened =
        Meanwhile-waits k m opened
          (asked k (c ∷ []) s.queue c (inr first) (inl refl) (Meanwhile-open m opened))
      where
        same : answers k (conform api k st).0 ≡ c ∷ calls
        same =
            append_cancel_left st.queue (answers k (conform api k st).0) (c ∷ calls)
              (sym (ap (λ t. t.queue) (process_next_item-answers api k st).1) ∙ made)

        heads : add_rate_limited k ∷ done k ∷ [] ≡ c ∷ calls → c ≡ add_rate_limited k
        heads x = cc

        first : c ≡ add_rate_limited k
        first = heads (sym (ap (answers k) failed) ∙ same)
