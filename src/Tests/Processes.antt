-- ===== src/Tests/Processes.antt =====
-- The theorems on `Run` and on the process, with one worker, that is run, cancelled and stopped.
use habitat_operator.Base.{◌≤◌, true, false, none, some, ◌≡◌, refl, arith}
use habitat_operator.Lifecycle as L
use habitat_operator.Lifecycle.{
  Run, serving, stopping, ended, initial, launch, cancel, informer_done, synced, spawn, spawned,
  consumer_done, stop, wait, here, next,
}
use habitat_operator.Lifecycle.Group.{IsCounted, Reach-IsCounted}
use habitat_operator.Lifecycle.Ends.{CanEnd, cancelled-CanEnd}
use habitat_operator.Command.Shutdown as P
use habitat_operator.Command.Shutdown.{
  Process, launched, first_signal, factory_started, finish, runs, clean_exit, signalled_exits,
}

abbrev at_work : Run
at_work = record {
  phase = serving;
  cancelled = false;
  queue_shut = false;
  group = 5;
  informers = 4;
  consumers = 1;
}

abbrev stopped : Run
stopped = record at_work { phase = stopping; cancelled = true; queue_shut = true }

abbrev finished : Run
finished = record {
  phase = ended true;
  cancelled = true;
  queue_shut = true;
  group = 0;
  informers = 0;
  consumers = 0;
}

to_work : L.Reach 1 initial at_work
to_work =
    next (next (next (next here (launch initial refl)) (synced _ refl)) (spawn _ 0 refl))
      (spawned _ refl)

to_stop : L.Reach 1 initial stopped
to_stop = next (next to_work (cancel at_work)) (stop _ refl refl)

to_end : L.Reach 1 initial finished
to_end =
    next
      (next
        (next
          (next
            (next (next to_stop (consumer_done _ 0 refl refl refl)) (informer_done _ 3 refl refl))
            (informer_done _ 2 refl refl))
          (informer_done _ 1 refl refl))
        (informer_done _ 0 refl refl))
      (wait _ refl refl)

Reach-IsCounted_example : IsCounted 1 at_work
Reach-IsCounted_example = Reach-IsCounted 1 to_work

cancelled-CanEnd_example : CanEnd 1 stopped
cancelled-CanEnd_example = cancelled-CanEnd 1 to_stop refl

abbrev working : Process
working = record { run = at_work; factories = 0; signals = 0; exit = none }

abbrev signalled : Process
signalled = record working { signals = 1; run = record at_work { cancelled = true } }

abbrev closed : Process
closed = record { run = finished; factories = 0; signals = 1; exit = some 0 }

working_reached : P.Reach 1 launched working
working_reached =
    P.next
      (P.next
        (P.next
          (P.next
            (P.next (P.next P.here (runs launched _ refl (launch initial refl) refl))
              (runs _ _ refl (synced _ refl) refl))
            (runs _ _ refl (spawn _ 0 refl) refl))
          (runs _ _ refl (spawned _ refl) refl))
        (factory_started _ 1 refl refl))
      (factory_started _ 0 refl refl)

signalled_reached : P.Reach 1 launched signalled
signalled_reached = P.next working_reached (first_signal working refl refl)

closed_reached : P.Reach 1 launched closed
closed_reached =
    P.next
      (P.next
        (P.next
          (P.next
            (P.next
              (P.next
                (P.next (P.next signalled_reached (runs _ _ refl (stop _ refl refl) refl))
                  (runs _ _ refl (consumer_done _ 0 refl refl refl) refl))
                (runs _ _ refl (informer_done _ 3 refl refl) refl))
              (runs _ _ refl (informer_done _ 2 refl refl) refl))
            (runs _ _ refl (informer_done _ 1 refl refl) refl))
          (runs _ _ refl (informer_done _ 0 refl refl) refl))
        (runs _ _ refl (wait _ refl refl) refl))
      (finish _ refl tt refl refl)

clean_exit_example : (closed.run.consumers ≡ 0) × (1 ≤ closed.signals) × (closed.factories ≡ 0)
clean_exit_example = clean_exit 1 closed_reached refl

signalled_exits_example : (q : Process) × P.Reach 1 signalled q × (q.exit ≡ some 0)
signalled_exits_example = signalled_exits 1 signalled_reached refl (omega arith)
