-- ===== src/Lifecycle/Ends.antt =====
-- How `Run` gets to its return once its context is cancelled.
use habitat_operator.Base.{ℕ, zero, suc, ◌-◌, true, ◌≡◌, refl, arith, subst, sym, ◌∙◌}
use habitat_operator.Lifecycle.{
  Phase, starting, syncing, spawning, serving, stopping, ended, Run, initial, Step, launch,
  informer_done, not_synced, spawn, spawned, consumer_done, stop, wait, Reach, here, next,
}
use habitat_operator.Lifecycle.Group.{IsCounted, Step-IsCounted, Reach-IsCounted, at_phase}

abbrev pub HasEnded : Phase → Type 0
HasEnded (ended _) = Unit
HasEnded _ = ⊥

-- `Run` gets from here to a state in which it has returned.
abbrev pub CanEnd : ℕ → Run → Type 0
CanEnd workers r = (s : Run) × Reach workers r s × HasEnded s.phase

module _ (workers : ℕ) where
  Reach-trans : {r s t : Run} → Reach workers r s → Reach workers s t → Reach workers r t
  Reach-trans p here = p
  Reach-trans p (next q st) = next (Reach-trans p q) st

  before_end : {r s : Run} → Step workers r s → CanEnd workers s → CanEnd workers r
  before_end st (t, p, e) = (t, Reach-trans (next here st) p, e)

  -- The workers end, then the informers, and then the wait group is at 0.
  drain_consumers :
      (n : ℕ) (r : Run)
      → r.consumers ≡ n
      → r.cancelled ≡ true
      → r.queue_shut ≡ true
      → ((s : Run)
          → s.phase ≡ r.phase
          → s.cancelled ≡ true
          → s.informers ≡ r.informers
          → s.consumers ≡ 0
          → s.group ≡ r.group - n
          → CanEnd workers s)
      → CanEnd workers r
  drain_consumers zero r e x q k = k r refl x refl e (omega arith)
  drain_consumers (suc n) r e x q k = before_end (consumer_done r n e x q) (
      drain_consumers n (record r { consumers = n; group = r.group - 1 }) refl x q
        λ s p y i c g. k s p y i c (omega (arith, g)))

  drain_informers :
      (n : ℕ) (r : Run)
      → r.informers ≡ n
      → r.cancelled ≡ true
      → r.phase ≡ stopping
      → r.group ≡ n
      → CanEnd workers r
  drain_informers zero r e x p g = before_end (wait r p g) (_, here, tt)
  drain_informers (suc n) r e x p g = before_end (informer_done r n e x) (
      drain_informers n (record r { informers = n; group = r.group - 1 }) refl x p
        (omega (arith, g)))

  stopping_ends :
      (r : Run) → IsCounted workers r → r.phase ≡ stopping → r.cancelled ≡ true → CanEnd workers r
  stopping_ends r c p x =
      let (n, settled) = at_phase workers r stopping p c in
      drain_consumers r.consumers r refl x settled.1
        λ s q y i _ g. drain_informers r.informers s i y (q ∙ p) (omega (arith, n, g))

  spawning_ends :
      (n : ℕ) (r : Run)
      → IsCounted workers r
      → r.phase ≡ spawning n
      → r.cancelled ≡ true
      → CanEnd workers r
  spawning_ends zero r c p x =
      let a = spawned r p in
      let s = record r { phase = serving } in
      let b = stop s refl x in
      before_end a (
        before_end b
          (stopping_ends _ (Step-IsCounted workers b (Step-IsCounted workers a c)) refl x))
  spawning_ends (suc n) r c p x =
      let a = spawn r n p in before_end a (spawning_ends n _ (Step-IsCounted workers a c) refl x)

  cancelled_ends :
      (r : Run) (p : Phase)
      → r.phase ≡ p
      → IsCounted workers r
      → r.cancelled ≡ true
      → CanEnd workers r
  cancelled_ends r starting p c x =
      before_end (launch r p) (before_end (not_synced _ refl x) (_, here, tt))
  cancelled_ends r syncing p c x = before_end (not_synced r p x) (_, here, tt)
  cancelled_ends r (spawning n) p c x = spawning_ends n r c p x
  cancelled_ends r serving p c x =
      let b = stop r p x in before_end b (stopping_ends _ (Step-IsCounted workers b c) refl x)
  cancelled_ends r stopping p c x = stopping_ends r c p x
  cancelled_ends r (ended b) p c x = (r, here, subst HasEnded (sym p) tt)

  -- `Run` does not get stuck: from every state that it can get to, once the context is cancelled,
  -- there are steps to a state in which it has returned.
  pub cancelled-CanEnd : {r : Run} → Reach workers initial r → r.cancelled ≡ true → CanEnd workers r
  cancelled-CanEnd {r} p x = cancelled_ends r r.phase refl (Reach-IsCounted workers p) x
