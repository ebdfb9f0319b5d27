-- ===== src/Tests/Systems.antt =====
-- The theorems on the whole controller, with the queue of lists.
use habitat_operator.Base.{ℕ, true, some, List, [], ◌∷◌, ◌++◌, ◌≡◌, refl, ap, ◌∙◌, arith}
use habitat_operator.State.{text, habitat, QueueCall, add, add_rate_limited, done}
use habitat_operator.Handlers.{enqueue, handle_hab_add}
use habitat_operator.Handlers.Wakes.{spec_changed-Adds}
use habitat_operator.Validate.{check_custom_version_match}
use habitat_operator.Registration.{habitats, added, updated, registered, deliver}
use habitat_operator.Worker.{key, process_next_item}
use habitat_operator.System.Queue.{IsWaiting}
use habitat_operator.System.{
  idle, reconciling, answering, System, set, apply_all, initial, notify, take, Reach, Meanwhile,
}
use habitat_operator.System.Marks.{holds}
use habitat_operator.System.Exclusive.{reconciled_once, due_held}
use habitat_operator.System.Kept.{change_waits, failure_waits}
use habitat_operator.Tests.Cluster.{cluster}
use habitat_operator.Tests.Habitats.{db, at, fresh}
use habitat_operator.Tests.Queues.{lists, lists-Lawful}
use habitat_operator.Worker.Laws.{answers, process_next_item-answers}
use habitat_operator.Tests.Conforms.{unspecified, failing}
use habitat_operator.Tests.Responds.{smaller, specs_differ}

abbrev db_added : List QueueCall
db_added = add "lab/db" ∷ []

delivered :
    (deliver cluster (registered cluster [] habitats) (added (habitat db)) (at fresh)).1.queue
    ≡ (at fresh).queue ++ db_added
unfolding deliver registered handle_hab_add enqueue check_custom_version_match
delivered = refl

abbrev waiting : System lists
waiting = record (initial lists) { queue = apply_all lists db_added lists.empty }

abbrev at_work : System lists
at_work = record {
  queue = record { due = []; delayed = []; processed = "lab/db" ∷ []; opened = true };
  status = set lists 0 (reconciling "lab/db") (λ i. idle);
}

-- The Habitat changes again while it is reconciled.
abbrev changed : System lists
changed = record at_work { queue = apply_all lists db_added at_work.queue }

at_work_reached : Reach lists cluster 2 at_work
at_work_reached =
    Reach.next
      (Reach.next Reach.here
        (notify (initial lists) [] habitats (added (habitat db)) (at fresh) db_added delivered))
      (take waiting 0 "lab/db" at_work.queue (omega arith) refl refl)

changed_reached : Reach lists cluster 2 changed
changed_reached =
    Reach.next at_work_reached
      (notify at_work [] habitats (added (habitat db)) (at fresh) db_added delivered)

reconciled_once_example : ◌≡◌ {A = ℕ} 0 0
reconciled_once_example =
    reconciled_once lists lists-Lawful cluster 2 0 0 "lab/db" at_work_reached refl refl

due_held_example : (i : ℕ) × (holds (changed.status i) ≡ some "lab/db")
due_held_example = due_held lists lists-Lawful cluster 2 "lab/db" changed_reached refl refl

updated_delivered :
    (deliver cluster
      (registered cluster [] habitats)
      (updated (habitat smaller) (habitat db))
      (at fresh)).1.queue
    ≡ (at fresh).queue ++ db_added
unfolding deliver registered
updated_delivered =
    ap (λ r. r.1.queue)
      (spec_changed-Adds cluster smaller db "lab/db" (at fresh) specs_differ (refl, refl))

change_waits_example : IsWaiting lists changed.queue "lab/db"
change_waits_example =
    change_waits lists lists-Lawful cluster 2 at_work changed "lab/db" [] smaller db (at fresh)
      db_added specs_differ (refl, refl) updated_delivered Meanwhile.here refl

failing_calls :
    (process_next_item cluster (key "lab/db") unspecified).1.queue
    ≡ unspecified.queue ++ (add_rate_limited "lab/db" ∷ done "lab/db" ∷ [])
failing_calls =
    ap (λ t. t.queue) (process_next_item-answers cluster "lab/db" unspecified).1
    ∙ ap (λ o. unspecified.queue ++ answers "lab/db" o) failing.1

-- The worker has asked for the key again, and is about to call `Done`.
abbrev asked_again : System lists
asked_again = record {
  queue = lists.apply (add_rate_limited "lab/db") at_work.queue;
  status = set lists 0 (answering "lab/db" (done "lab/db" ∷ [])) at_work.status;
}

failure_waits_example : IsWaiting lists asked_again.queue "lab/db"
failure_waits_example =
    failure_waits lists lists-Lawful cluster 2 at_work asked_again 0 "lab/db" unspecified
      (text failing.0) (add_rate_limited "lab/db") (done "lab/db" ∷ []) failing.1 failing_calls
      Meanwhile.here refl
