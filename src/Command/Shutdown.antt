-- ===== src/Command/Shutdown.antt =====
-- cmd/habitat-operator/main.go: the process from the start of the controller to its exit: the
-- goroutines of `v1beta2`, the one that takes signals, and `run` itself, which waits.
use habitat_operator.Base.{
  ℕ, zero, suc, ◌≤◌, true, false, Option, none, some, ◌≡◌, refl, sym, ◌∙◌, arith, subst,
}
use habitat_operator.Lifecycle as L
use habitat_operator.Lifecycle.{
  Run, Phase, initial, starting, syncing, spawning, serving, stopping, ended,
}
use habitat_operator.Lifecycle.Group.{Settled, Reach-IsCounted}
use habitat_operator.Lifecycle.Ends.{HasEnded, cancelled-CanEnd}

-- `factories` are the two goroutines that start the informer factories; `run` is the controller's.
-- `signals` is how many signals the process has taken, and `exit` its exit code.
pub record Process : Type 0 where
  pub run : Run
  pub factories : ℕ
  pub signals : ℕ
  pub exit : Option ℕ

abbrev pub launched : Process
launched = record { run = initial; factories = 2; signals = 0; exit = none }

-- Only `cancelFunc` cancels the context: the steps of `Run` leave that as it is.
pub data Step (workers : ℕ) : Process → Process → Type 0 where
  runs :
      (p : Process) (r : Run)
      → p.exit ≡ none
      → L.Step workers p.run r
      → r.cancelled ≡ p.run.cancelled
      → Step workers p (record p { run = r })
  factory_started :
      (p : Process) (n : ℕ)
      → p.exit ≡ none
      → p.factories ≡ suc n
      → Step workers p (record p { factories = n })
  first_signal :
      (p : Process)
      → p.exit ≡ none
      → p.signals ≡ 0
      → Step workers p (record p { signals = 1; run = record (p.run) { cancelled = true } })
  second_signal :
      (p : Process)
      → p.exit ≡ none
      → p.signals ≡ 1
      → Step workers p (record p { signals = 2; exit = some 1 })
  -- The panic of a worker, which `HandleCrash` passes on.
  worker_panics :
      (p : Process)
      → p.exit ≡ none
      → 1 ≤ p.run.consumers
      → Step workers p (record p { exit = some 2 })
  -- The controller has returned and the factories are started, so the wait group is at 0; and
  -- the context is done.
  finish :
      (p : Process)
      → p.exit ≡ none
      → HasEnded p.run.phase
      → p.factories ≡ 0
      → p.run.cancelled ≡ true
      → Step workers p (record p { exit = some 0 })

pub data Reach (workers : ℕ) (p : Process) : Process → Type 0 where
  here : Reach workers p p
  next : {q r : Process} → Reach workers p q → Step workers q r → Reach workers p r

-- What holds of a process: its controller is where `Run` can get to, the context is cancelled
-- exactly after a signal, and an exit with 0 is a clean one.
abbrev Excused : Process → Option ℕ → Type 0
Excused p (some zero) = HasEnded p.run.phase × (p.factories ≡ 0) × (1 ≤ p.signals)
Excused p _ = Unit

pub record IsSound (workers : ℕ) (p : Process) : Type 0 where
  pub reached : L.Reach workers initial p.run
  pub signalled :
      (p.run.cancelled ≡ true → 1 ≤ p.signals) × (1 ≤ p.signals → p.run.cancelled ≡ true)
  pub excused : Excused p p.exit

module _ (workers : ℕ) where
  unexcused : (p : Process) (o : Option ℕ) → o ≡ none → Excused p o
  unexcused p o e = subst (Excused p) (sym e) tt

  launched-IsSound : IsSound workers launched
  launched-IsSound = record {
    reached = L.here;
    signalled = ((λ e. cc), (λ e. absurd (omega (arith, e))));
    excused = tt;
  }

  Step-IsSound : {p q : Process} → Step workers p q → IsSound workers p → IsSound workers q
  Step-IsSound (runs p r e st same) v = record {
    reached = L.next v.reached st;
    signalled = ((λ c. v.signalled.0 (sym same ∙ c)), (λ n. same ∙ v.signalled.1 n));
    excused = unexcused (record p { run = r }) p.exit e;
  }
  Step-IsSound (factory_started p n e f) v = record {
    reached = v.reached;
    signalled = v.signalled;
    excused = unexcused (record p { factories = n }) p.exit e;
  }
  Step-IsSound (first_signal p e n) v = record {
    reached = L.next v.reached (L.cancel p.run);
    signalled = ((λ _. omega arith), (λ _. refl));
    excused =
        unexcused (record p { signals = 1; run = record (p.run) { cancelled = true } }) p.exit e;
  }
  Step-IsSound (second_signal p e n) v = record {
    reached = v.reached;
    signalled = ((λ _. omega arith), (λ _. v.signalled.1 (omega (arith, n))));
    excused = tt;
  }
  Step-IsSound (worker_panics p e m) v = record {
    reached = v.reached;
    signalled = v.signalled;
    excused = tt;
  }
  Step-IsSound (finish p e h f c) v = record {
    reached = v.reached;
    signalled = v.signalled;
    excused = (h, f, v.signalled.0 c);
  }

  pub Reach-IsSound : {p : Process} → Reach workers launched p → IsSound workers p
  Reach-IsSound here = launched-IsSound
  Reach-IsSound (next r st) = Step-IsSound st (Reach-IsSound r)

  no_worker : (r : Run) (p : Phase) → Settled r p → HasEnded p → r.consumers ≡ 0
  no_worker r starting s h = absurd h
  no_worker r syncing s h = absurd h
  no_worker r (spawning n) s h = absurd h
  no_worker r serving s h = absurd h
  no_worker r stopping s h = absurd h
  no_worker r (ended true) s h = s.2.1
  no_worker r (ended false) s h = s.1

  -- Where the process exits with 0, no worker runs any more, a signal was taken, and neither factory
  -- is still being started.
  pub clean_exit :
      {p : Process}
      → Reach workers launched p
      → p.exit ≡ some 0
      → (p.run.consumers ≡ 0) × (1 ≤ p.signals) × (p.factories ≡ 0)
  clean_exit {p} r e =
      let v = Reach-IsSound r in
      let (h, f, n) = subst (Excused p) e v.excused in
      (no_worker p.run p.run.phase (Reach-IsCounted workers v.reached).settled h, n, f)

  -- The steps of the controller are steps of the process.
  run_inside :
      {r s : Run} (p : Process)
      → p.run ≡ r
      → p.exit ≡ none
      → p.run.cancelled ≡ true
      → L.Reach workers r s
      → (q : Process) × Reach workers p q
        × (q.run ≡ s)
        × (q.exit ≡ none)
        × (q.factories ≡ p.factories)
        × (q.run.cancelled ≡ true)
  run_inside p same e c L.here = (p, here, same, e, refl, c)
  run_inside p same e c (L.next {s} {t} path st) =
      let (q, inner, at, e', f, c') = run_inside p same e c path in
      let x = still_cancelled st (subst (λ u. u.cancelled ≡ true) at c') in
      (
        record q { run = t },
        next inner (runs q t e' (subst (λ u. L.Step workers u t) (sym at) st) (x ∙ sym c')),
        refl,
        e',
        f,
        x,
      )
    where
      still_cancelled : {a b : Run} → L.Step workers a b → a.cancelled ≡ true → b.cancelled ≡ true
      still_cancelled (L.launch r _) h = h
      still_cancelled (L.cancel r) h = refl
      still_cancelled (L.informer_done r n _ _) h = h
      still_cancelled (L.synced r _) h = h
      still_cancelled (L.not_synced r _ _) h = h
      still_cancelled (L.spawn r n _) h = h
      still_cancelled (L.spawned r _) h = h
      still_cancelled (L.consumer_done r n _ _ _) h = h
      still_cancelled (L.stop r _ _) h = h
      still_cancelled (L.wait r _ _) h = h

  trans : {p q r : Process} → Reach workers p q → Reach workers q r → Reach workers p r
  trans a here = a
  trans a (next b st) = next (trans a b) st

  factories_start :
      (n : ℕ) (p : Process)
      → p.exit ≡ none
      → p.factories ≡ n
      → (q : Process) × Reach workers p q × (q.run ≡ p.run) × (q.exit ≡ none) × (q.factories ≡ 0)
  factories_start zero p e f = (p, here, refl, e, f)
  factories_start (suc n) p e f =
      let (q, inner, same, e', f') = factories_start n (record p { factories = n }) e refl in
      (q, trans (next here (factory_started p n e f)) inner, same, e', f')

  -- After a signal the process can always still exit with 0: from every state that it gets to and
  -- in which it runs, there are steps to its exit.
  pub signalled_exits :
      {p : Process}
      → Reach workers launched p
      → p.exit ≡ none
      → 1 ≤ p.signals
      → (q : Process) × Reach workers p q × (q.exit ≡ some 0)
  signalled_exits {p} r e n =
      let v = Reach-IsSound r in
      let c = v.signalled.1 n in
      let (s, path, done) = cancelled-CanEnd workers v.reached c in
      let (q, inner, at, e', f, c') = run_inside p refl e c path in
      let (t, last, same, e'', f') = factories_start q.factories q e' refl in
      (
        record t { exit = some 0 },
        next (trans inner last) (
            finish t e'' (subst (λ u. HasEnded u.phase) (sym (same ∙ at)) done) f'
              (subst (λ u. u.cancelled ≡ true) (sym same) c')),
        refl,
      )
