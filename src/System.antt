-- ===== src/System.antt =====
-- The controller as a whole: informers that call the handlers, the work queue, and the workers of
-- `Run`, interleaved in any order. The work queue is client-go's, and a parameter.
pub mod Queue
pub mod Marks
pub mod Owners
pub mod Exclusive
pub mod Kept
use habitat_operator.Memory.{eqb}
use habitat_operator.Base.{
  ℕ, ◌<◌, String, Option, none, some, List, [], ◌∷◌, ◌++◌, ◌≡◌, if◌then◌else◌,
}
use habitat_operator.Kube.Api.{Api}
use habitat_operator.State.{State, Object, QueueCall}
use habitat_operator.Registration.{Informer, Event, registered, deliver}
use habitat_operator.Worker.{key, process_next_item}
use habitat_operator.System.Queue.{WorkQueue}

-- Where a worker is: in `Get`, or between two items; in `conform`; or after it, with these calls on
-- the queue still to make. A worker that `Get` tells to quit leaves its loop and makes no call.
pub data Status : Type 0 where
  idle : Status
  reconciling : String → Status
  answering : String → List QueueCall → Status

module _ (queues : WorkQueue) where
  abbrev pub apply_all : List QueueCall → queues.Queue → queues.Queue
  apply_all [] q = q
  apply_all (c ∷ cs) q = apply_all cs (queues.apply c q)

  pub record System : Type 0 where
    pub queue : queues.Queue
    pub status : ℕ → Status

  abbrev pub set : ℕ → Status → (ℕ → Status) → ℕ → Status
  set i x f j = if eqb i j then x else f j

  abbrev pub initial : System
  initial = record { queue = queues.empty; status = λ i. idle }

  -- One step, with the key that a worker takes in it. The caches and the cluster, on which the
  -- handlers and `conform` run, are as they may be at the time.
  pub data Step (api : Api) (workers : ℕ) : System → Option String → System → Type 0 where
    notify :
        (s : System) (store : List Object) (i : Informer) (e : Event) (st : State api)
        (calls : List QueueCall)
        → (deliver api (registered api store i) e st).1.queue ≡ st.queue ++ calls
        → Step api workers s none (record s { queue = apply_all calls s.queue })
    take :
        (s : System) (i : ℕ) (k : String) (q : queues.Queue)
        → i < workers
        → s.status i ≡ idle
        → queues.get s.queue ≡ some (k, q)
        → Step api workers s
            (some k)
            (record s { queue = q; status = set i (reconciling k) s.status })
    -- `conform` makes no call on the queue, so the calls of `processNextItem` come after it.
    reconciled :
        (s : System) (i : ℕ) (k : String) (st : State api) (calls : List QueueCall)
        → s.status i ≡ reconciling k
        → (process_next_item api (key k) st).1.queue ≡ st.queue ++ calls
        → Step api workers s none (record s { status = set i (answering k calls) s.status })
    answer :
        (s : System) (i : ℕ) (k : String) (c : QueueCall) (calls : List QueueCall)
        → s.status i ≡ answering k (c ∷ calls)
        → Step api workers s none
            (record { queue = queues.apply c s.queue; status = set i (answering k calls) s.status })
    next_item :
        (s : System) (i : ℕ) (k : String)
        → s.status i ≡ answering k []
        → Step api workers s none (record s { status = set i idle s.status })
    delay_over : (s : System) → Step api workers s none (record s { queue = queues.wait s.queue })
    shut_down :
        (s : System) → Step api workers s none (record s { queue = queues.shut_down s.queue })

  pub data Reach (api : Api) (workers : ℕ) : System → Type 0 where
    here : Reach api workers initial
    next :
        {s t : System} {o : Option String}
        → Reach api workers s
        → Step api workers s o t
        → Reach api workers t

  -- What follows a state while no worker takes `k`.
  pub data Meanwhile (api : Api) (workers : ℕ) (k : String) (s : System) : System → Type 0 where
    here : Meanwhile api workers k s s
    next :
        {t u : System} {o : Option String}
        → Meanwhile api workers k s t
        → Step api workers t o u
        → ¬ (o ≡ some k)
        → Meanwhile api workers k s u
