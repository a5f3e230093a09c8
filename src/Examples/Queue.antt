-- ===== src/Examples/Queue.antt =====
-- The task table at work.
use usrp_playground.Prelude.{ℕ, zero, suc, ◌≡◌, ◌≢◌, refl, true, [], ◌∷◌, none, some, arith}
use usrp_playground.Prelude.Text.{codes, contains, starts_with}
use usrp_playground.Tasks.{
  Task, Table, new_task, start_task, find, update, oldest_pending, server_running, claim, complete,
  poll_and_process, World, Reach, begin, next, submit, completes, select_task, commit_running,
  may_cancel, delete_task, delete, cancel_reads, cancel_deletes, selects, commits,
}
use usrp_playground.Tasks.Queue.{IsNext, IsProcessed, poll_and_process_lem}
use usrp_playground.Tasks.Consistent.{IsConsistent}
use usrp_playground.Tasks.Lifecycle.{Reach-IsConsistent}
use usrp_playground.Tasks.Progress.{Follows, Step-Follows}
use usrp_playground.Worker.Retry.{
  Outcome, returned, runtime_error, other_error, Stops, is_transient, with_rf_retry,
  with_rf_retry_lem,
}

abbrev first_task : Task
first_task = new_task 1 5 100 10

abbrev second_task : Task
second_task = new_task 2 6 200 11

abbrev waiting : Table
waiting = second_task ∷ first_task ∷ []

abbrev first_claimed : Table
first_claimed = second_task ∷ start_task first_task ∷ []

claim_first : claim none waiting ≡ some (first_task, first_claimed)
unfolding claim select_task commit_running server_running oldest_pending update
claim_first = refl

poll_and_process_lem_example :
    let r = poll_and_process none (λ uid. none) 20 waiting in
    (r.1 ≡ true)
    × IsNext first_task waiting
    × ((u : Task) × (find 1 r.0 ≡ some u) × IsProcessed 20 none first_task u)
    × ((v : ℕ) → v ≢ 1 → find v r.0 ≡ find v waiting)
unfolding find server_running oldest_pending
poll_and_process_lem_example =
    poll_and_process_lem none (λ uid. none) 20 waiting first_task (refl, (refl, tt)) refl refl

abbrev at_first : World
at_first = record { db = []; selected = none; busy = none; cancelling = [] }

abbrev one_waiting : World
one_waiting = record at_first { db = first_task ∷ [] }

-- The client leaves just before the worker starts: the gateway has read that the task waits.
abbrev one_cancelled : World
one_cancelled = record one_waiting { cancelling = 1 ∷ [] }

abbrev one_selected : World
one_selected = record one_cancelled { selected = some 1 }

abbrev one_running : World
one_running = record one_cancelled { db = start_task first_task ∷ []; busy = some 1 }

-- The running task is gone, and the worker still holds it.
abbrev one_deleted : World
one_deleted = record one_running { db = []; cancelling = [] }

one_running-Reach : Reach one_running
unfolding find may_cancel select_task commit_running oldest_pending server_running update
one_running-Reach =
    next
      (next
        (next (next begin (submit at_first 1 5 100 10 refl (λ e. ground (arith, e))))
          (cancel_reads one_waiting 1 refl))
        (selects one_cancelled none first_task refl refl refl))
      (commits one_selected 1 first_task refl refl refl)

one_deleted-Reach : Reach one_deleted
unfolding delete_task delete
one_deleted-Reach = next one_running-Reach (cancel_deletes one_running [] [] 1 refl)

Reach-IsConsistent_example : IsConsistent one_deleted
Reach-IsConsistent_example = Reach-IsConsistent one_deleted-Reach

one_running-IsConsistent : IsConsistent one_running
one_running-IsConsistent = Reach-IsConsistent one_running-Reach

Step-Follows_example : Follows (start_task first_task) (find 1 (complete 1 30 none one_running.db))
unfolding find
Step-Follows_example =
    Step-Follows (completes one_running 1 30 none refl) one_running-IsConsistent 1
      (start_task first_task) refl

-- The first capture overflows, the second succeeds.
abbrev second_try : ℕ → Outcome ℕ
second_try (suc zero) = runtime_error (codes "RX OVERFLOW")
second_try (suc (suc n)) = returned 7
second_try zero = other_error

retried : with_rf_retry second_try 2 ≡ (returned 7, 2)
unfolding with_rf_retry is_transient contains starts_with
retried = refl

with_rf_retry_lem_example : Stops second_try 1 3 (with_rf_retry second_try 2)
with_rf_retry_lem_example = with_rf_retry_lem second_try 2
