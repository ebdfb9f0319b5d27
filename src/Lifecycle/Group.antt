-- ===== src/Lifecycle/Group.antt =====
-- What the wait group of `Run` counts.
use habitat_operator.Base.{ℕ, suc, ◌+◌, ◌-◌, ◌<◌, ◌≤◌, true, false, ◌≡◌, refl, arith, subst}
use habitat_operator.Lifecycle.{
  Phase, starting, syncing, spawning, serving, stopping, ended, Run, initial, Step, launch, cancel,
  informer_done, synced, not_synced, spawn, spawned, consumer_done, stop, wait, Reach, here, next,
}

-- The workers that were counted and not started yet.
abbrev pub owed : ℕ → Phase → ℕ
owed workers starting = 0
owed workers syncing = workers
owed workers (spawning n) = n
owed workers serving = 0
owed workers stopping = 0
owed workers (ended true) = 0
owed workers (ended false) = workers

abbrev pub AllDone : Run → Type 0
AllDone r = (r.informers ≡ 0) × (r.consumers ≡ 0) × (r.group ≡ 0)

-- What each phase says of the rest.
abbrev pub Settled : Run → Phase → Type 0
Settled r starting = AllDone r
Settled r stopping = (r.cancelled ≡ true) × (r.queue_shut ≡ true)
Settled r (ended true) = (r.cancelled ≡ true) × (r.queue_shut ≡ true) × AllDone r
Settled r syncing = r.consumers ≡ 0
Settled r (ended false) = (r.cancelled ≡ true) × (r.consumers ≡ 0)
Settled r _ = Unit

pub record IsCounted (workers : ℕ) (r : Run) : Type 0 where
  pub counted : r.group ≡ r.informers + r.consumers + owed workers r.phase
  pub settled : Settled r r.phase

initial-IsCounted : (workers : ℕ) → IsCounted workers initial
initial-IsCounted workers = record { counted = refl; settled = (refl, refl, refl) }

module _ (workers : ℕ) where
  pub at_phase :
      (r : Run) (p : Phase)
      → r.phase ≡ p
      → IsCounted workers r
      → (r.group ≡ r.informers + r.consumers + owed workers p) × Settled r p
  at_phase r p e c = (
    subst (λ q. r.group ≡ r.informers + r.consumers + owed workers q) e c.counted,
    subst (Settled r) e c.settled,
  )

  cancelled-Settled :
      (r : Run) (p : Phase) → Settled r p → Settled (record r { cancelled = true }) p
  cancelled-Settled r starting s = s
  cancelled-Settled r syncing s = s
  cancelled-Settled r (spawning n) s = tt
  cancelled-Settled r serving s = tt
  cancelled-Settled r stopping s = (refl, s.1)
  cancelled-Settled r (ended true) s = (refl, s.1, s.2)
  cancelled-Settled r (ended false) s = (refl, s.1)

  -- A goroutine that runs has been counted, and it is none of a `Run` that has not begun or that
  -- has waited for all.
  running-Settled :
      (r : Run) (i c g : ℕ) (p : Phase)
      → 0 < r.informers + r.consumers
      → c ≤ r.consumers
      → Settled r p
      → Settled (record r { informers = i; consumers = c; group = g }) p
  running-Settled r i c g starting m l (a, b, d) = absurd (omega arith)
  running-Settled r i c g syncing m l s = omega (arith, l, s)
  running-Settled r i c g (spawning n) m l s = tt
  running-Settled r i c g serving m l s = tt
  running-Settled r i c g stopping m l s = s
  running-Settled r i c g (ended true) m l (_, _, (a, b, d)) = absurd (omega arith)
  running-Settled r i c g (ended false) m l s = (s.0, omega (arith, l, s.1))

  pub Step-IsCounted : {r s : Run} → Step workers r s → IsCounted workers r → IsCounted workers s
  Step-IsCounted (launch r e) c =
      let (n, s) = at_phase r starting e c in
      record { counted = omega (arith, n, s.0, s.1, s.2); settled = s.1 }
  Step-IsCounted (cancel r) c = record {
    counted = c.counted;
    settled = cancelled-Settled r r.phase c.settled;
  }
  Step-IsCounted (informer_done r n e x) c = record {
    counted = omega (arith, c.counted, e);
    settled =
        running-Settled r n r.consumers (r.group - 1) r.phase (omega (arith, e)) (omega (arith, e))
          c.settled;
  }
  Step-IsCounted (synced r e) c = record { counted = (at_phase r syncing e c).0; settled = tt }
  Step-IsCounted (not_synced r e x) c =
      let (n, s) = at_phase r syncing e c in record { counted = n; settled = (x, s) }
  Step-IsCounted (spawn r n e) c =
      let m = (at_phase r (spawning (suc n)) e c).0 in
      record { counted = omega (arith, m); settled = tt }
  Step-IsCounted (spawned r e) c = record {
    counted = (at_phase r (spawning 0) e c).0;
    settled = tt;
  }
  Step-IsCounted (consumer_done r n e x shut) c = record {
    counted = omega (arith, c.counted, e);
    settled =
        running-Settled r r.informers n (r.group - 1) r.phase (omega (arith, e)) (omega (arith, e))
          c.settled;
  }
  Step-IsCounted (stop r e x) c = record {
    counted = (at_phase r serving e c).0;
    settled = (x, refl);
  }
  Step-IsCounted (wait r e z) c =
      let (n, s) = at_phase r stopping e c in
      record { counted = n; settled = (s.0, s.1, (omega (arith, n, z), omega (arith, n, z), z)) }

  -- In every state that `Run` can get to, the counter of its wait group is the number of goroutines
  -- that run and of workers that are still to be started. None runs before `Run` begins or after it
  -- has waited for all, and no worker before the caches have synced; where it stops, the context is
  -- cancelled and the queue is shut down; where it gives up on the caches, the context is cancelled and
  -- no worker runs.
  pub Reach-IsCounted : {r : Run} → Reach workers initial r → IsCounted workers r
  Reach-IsCounted here = initial-IsCounted workers
  Reach-IsCounted (next r st) = Step-IsCounted st (Reach-IsCounted r)

  -- So a goroutine that ends calls `Done` on a counter that is not 0, and it does not panic.
  pub done_positive :
      {r : Run} → Reach workers initial r → 0 < r.informers + r.consumers → 0 < r.group
  done_positive p m = omega (arith, (Reach-IsCounted p).counted, m)

  -- Where `Run` has returned the context's error, the context was cancelled and the queue is shut
  -- down, and no informer and no worker that it started runs any more.
  pub ended_quiet :
      {r : Run}
      → Reach workers initial r
      → r.phase ≡ ended true
      → (r.cancelled ≡ true) × (r.queue_shut ≡ true) × (r.informers ≡ 0) × (r.consumers ≡ 0)
  ended_quiet {r} p e =
      let s = (at_phase r (ended true) e (Reach-IsCounted p)).1 in (s.0, s.1, s.2.0, s.2.1)
