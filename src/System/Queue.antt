-- ===== src/System/Queue.antt =====
-- What the controller relies on of client-go's work queue, workqueue.RateLimitingInterface: it is
-- stingy, and what is added to it while it is open is handed out.
use habitat_operator.Base.{String, Bool, true, false, Option, none, some, ◌≡◌, ◌≢◌, ◌⊎◌}
use habitat_operator.State.{QueueCall, add, add_rate_limited, forget, done}

-- `wait` lets time pass for the delayed adds. A key is due if it was added and not handed out since,
-- delayed if it was added rate limited and is not due yet, and processed if it was handed out and not
-- done since.
pub record WorkQueue : Type 1 where
  pub Queue : Type 0
  pub empty : Queue
  pub apply : QueueCall → Queue → Queue
  pub get : Queue → Option (String × Queue)
  pub wait : Queue → Queue
  pub shut_down : Queue → Queue
  pub is_open : Queue → Bool
  pub is_due : Queue → String → Bool
  pub is_delayed : Queue → String → Bool
  pub is_processed : Queue → String → Bool

module _ (queues : WorkQueue) where
  -- The keys are processed as before.
  abbrev pub SameProcessed : queues.Queue → queues.Queue → Type 0
  SameProcessed q r = (k : String) → queues.is_processed r k ≡ queues.is_processed q k

  -- A key that waits to be handed out, at once or after its delay.
  abbrev pub IsWaiting : queues.Queue → String → Type 0
  IsWaiting q k = (queues.is_due q k ≡ true) ⊎ (queues.is_delayed q k ≡ true)

  -- What waits still waits, unless the queue is shut down.
  abbrev pub KeepsWaiting : queues.Queue → queues.Queue → Type 0
  KeepsWaiting q r = (k : String) → queues.is_open r ≡ true → IsWaiting q k → IsWaiting r k

  -- `k` is handed out of `q`, and `r` is left.
  pub record Hands (q : queues.Queue) (k : String) (r : queues.Queue) : Type 0 where
    pub was_free : queues.is_processed q k ≡ false
    pub taken : queues.is_processed r k ≡ true
    pub others : (j : String) → j ≢ k → queues.is_processed r j ≡ queues.is_processed q j
    pub others_wait : (j : String) → j ≢ k → queues.is_open r ≡ true → IsWaiting q j → IsWaiting r j

  pub record Lawful : Type 0 where
    pub none_processed : (k : String) → queues.is_processed queues.empty k ≡ false
    -- The queue is open until it is shut down.
    pub apply_open :
        (c : QueueCall) (q : queues.Queue) → queues.is_open (queues.apply c q) ≡ queues.is_open q
    pub get_open :
        (q r : queues.Queue) (k : String)
        → queues.get q ≡ some (k, r)
        → queues.is_open r ≡ queues.is_open q
    pub wait_open : (q : queues.Queue) → queues.is_open (queues.wait q) ≡ queues.is_open q
    pub shut : (q : queues.Queue) → queues.is_open (queues.shut_down q) ≡ false
    -- Only `Done` ends the processing of a key, and only of its own.
    pub add_processed : (k : String) (q : queues.Queue) → SameProcessed q (queues.apply (add k) q)
    pub limited_processed :
        (k : String) (q : queues.Queue) → SameProcessed q (queues.apply (add_rate_limited k) q)
    pub forget_processed :
        (k : String) (q : queues.Queue) → SameProcessed q (queues.apply (forget k) q)
    pub done_processed :
        (k : String) (q : queues.Queue) → queues.is_processed (queues.apply (done k) q) k ≡ false
    pub done_others :
        (k j : String) (q : queues.Queue)
        → j ≢ k
        → queues.is_processed (queues.apply (done k) q) j ≡ queues.is_processed q j
    pub wait_processed : (q : queues.Queue) → SameProcessed q (queues.wait q)
    pub shut_processed : (q : queues.Queue) → SameProcessed q (queues.shut_down q)
    -- `Get` hands out a key that is not processed; if it hands out none, those that are due are.
    pub get_hands : (q r : queues.Queue) (k : String) → queues.get q ≡ some (k, r) → Hands q k r
    pub get_none :
        (q : queues.Queue)
        → queues.get q ≡ none
        → (k : String) → queues.is_due q k ≡ true
        → queues.is_processed q k ≡ true
    -- No call and no passing of time loses a key.
    pub apply_keeps : (c : QueueCall) (q : queues.Queue) → KeepsWaiting q (queues.apply c q)
    pub wait_keeps : (q : queues.Queue) → KeepsWaiting q (queues.wait q)
    pub add_waits :
        (k : String) (q : queues.Queue)
        → queues.is_open q ≡ true
        → IsWaiting (queues.apply (add k) q) k
    pub limited_waits :
        (k : String) (q : queues.Queue)
        → queues.is_open q ≡ true
        → IsWaiting (queues.apply (add_rate_limited k) q) k
