-- ===== src/Tasks.antt =====
-- The task table (entrypoint/models.py, worker/models.py) and the two services' operations on it:
-- worker/worker.py takes tasks from it, entrypoint/main.py adds and cancels them. A table is the
-- list of its rows; `uid` is its primary key.
pub mod Table
pub mod Queue
pub mod Consistent
pub mod Lifecycle
pub mod Progress
use usrp_playground.Prelude.{
  ℕ, ◌+◌, ◌≡◌, ◌≢◌, ◌<◌, Bool, true, false, ◌&&◌, List, [], ◌∷◌, ◌++◌, map, Option, none, some, leb,
  ltb, ◌==◌, if◌then◌else◌, Result, ok, err,
}
use usrp_playground.Prelude.Text.{Text, codes, text_eq}

-- "PD", "R" and "D".
pub data State : Type 0 where
  pending running done : State

pub record Task : Type 0 where
  pub uid : ℕ
  pub token_id : ℕ
  pub state : State
  pub n_samples : ℕ
  pub created_at : ℕ
  pub done_at : Option ℕ
  pub error_message : Option Text

abbrev pub Table : Type 0
Table = List Task

abbrev pub is_pending : State → Bool
is_pending pending = true
is_pending _ = false

abbrev pub is_running : State → Bool
is_running running = true
is_running _ = false

-- `query(Task).filter(Task.uid == uid).first()`.
unfoldable pub find : ℕ → Table → Option Task
find uid [] = none
find uid (t ∷ ts) = if t.uid == uid then some t else find uid ts

-- Assignments to the fields of one row.
unfoldable pub update : ℕ → (Task → Task) → Table → Table
update uid f [] = []
update uid f (t ∷ ts) = (if t.uid == uid then f t else t) ∷ update uid f ts

unfoldable pub delete : (Task → Bool) → Table → Table
delete drops [] = []
delete drops (t ∷ ts) = if drops t then delete drops ts else t ∷ delete drops ts

-- `filter(state == "PD").order_by(created_at.asc()).first()`.
unfoldable pub oldest_pending : Table → Option Task
oldest_pending [] = none
oldest_pending (t ∷ ts) =
    if is_pending t.state
    then elim (oldest_pending ts) [
      | none ↦ some t
      | some u ↦ if leb t.created_at u.created_at then some t else some u
    ]
    else oldest_pending ts

-- `filter(state == "PD", created_at < t).count()`.
unfoldable pub queue_position : ℕ → Table → ℕ
queue_position at [] = 0
queue_position at (t ∷ ts) =
    queue_position at ts + (if is_pending t.state && ltb t.created_at at then 1 else 0)

-- `_server_running`: the row of `server_state`, if there is one.
unfoldable pub server_running : Option Text → Bool
server_running none = true
server_running (some s) = text_eq s (codes "running")

-- `Task(uid=…, token_id=…, n_samples=…)` with the column defaults.
abbrev pub new_task : ℕ → ℕ → ℕ → ℕ → Task
new_task uid token_id n_samples now = record {
  uid = uid;
  token_id = token_id;
  state = pending;
  n_samples = n_samples;
  created_at = now;
  done_at = none;
  error_message = none;
}

abbrev pub start_task : Task → Task
start_task t = record t { state = running }

-- `error` is `none` if `process_f32` returned, else the traceback.
abbrev pub finish_task : ℕ → Option Text → Task → Task
finish_task now none t = record t { state = done; done_at = some now }
finish_task now (some e) t = record t { state = done; done_at = some now; error_message = some e }

-- `poll_and_process` up to its commit: the task that is selected, and the commit of "R".
unfoldable pub select_task : Option Text → Table → Option Task
select_task server db = if server_running server then oldest_pending db else none

unfoldable pub commit_running : ℕ → Table → Table
commit_running uid db = update uid start_task db

-- Both, with nobody else at the table between.
unfoldable pub claim : Option Text → Table → Option (Task × Table)
unfolding select_task commit_running
claim server db = elim (select_task server db) [
  | none ↦ none
  | some t ↦ some (t, commit_running t.uid db)
]

-- The second half, from the outcome of `process_f32` on.
unfoldable pub complete : ℕ → ℕ → Option Text → Table → Table
complete uid now outcome db = update uid (finish_task now outcome) db

-- `poll_and_process`, with nobody else at the table meanwhile.
unfoldable pub poll_and_process : Option Text → (ℕ → Option Text) → ℕ → Table → Table × Bool
unfolding claim complete
poll_and_process server process now db = elim (claim server db) [
  | none ↦ (db, false)
  | some (t, db') ↦ (complete t.uid now (process t.uid) db', true)
]

abbrev pub restart_message : Text
restart_message = codes "The worker was restarted while this task was running. Please resubmit."

-- `recover_stale_tasks`.
unfoldable pub recover_stale_tasks : ℕ → Table → Table
recover_stale_tasks now [] = []
recover_stale_tasks now (t ∷ ts) =
    (if is_running t.state then finish_task now (some restart_message) t else t)
    ∷ recover_stale_tasks now ts

-- `cleanup_old_tasks`, by the rows that it deletes.
unfoldable pub cleanup_old_tasks : ℕ → Table → Table
unfolding delete
cleanup_old_tasks cutoff db = delete (λ t. ltb t.created_at cutoff) db

-- `_cancel_pending_task`: whether the row is there and waits, and the deletion of it.
unfoldable pub may_cancel : ℕ → Table → Bool
unfolding find
may_cancel uid db = elim (find uid db) [ none ↦ false | some t ↦ is_pending t.state ]

unfoldable pub delete_task : ℕ → Table → Table
unfolding delete
delete_task uid db = delete (λ u. u.uid == uid) db

-- Both, with nobody else at the table between.
unfoldable pub cancel_pending_task : ℕ → Table → Table
unfolding may_cancel delete_task
cancel_pending_task uid db = if may_cancel uid db then delete_task uid db else db

-- The table; the task that the worker has selected and not yet committed as running; the one that it is
-- processing; and the tasks that the gateway has read as waiting and is about to delete.
pub record World : Type 0 where
  pub db : Table
  pub selected : Option ℕ
  pub busy : Option ℕ
  pub cancelling : List ℕ

-- What the services do to the table, one read or commit after another. A uid is a fresh `uuid4`. The one
-- worker selects only when idle, and cleans up between tasks; its commit fails where the row has gone,
-- and so does the one after processing. The administrator deletes any tasks at any time, in any
-- state. A restart may come at any time.
pub data Step : World → World → Type 0 where
  submit :
      (w : World) (uid token_id n_samples now : ℕ)
      → find uid w.db ≡ none
      → w.busy ≢ some uid
      → Step w (record w { db = w.db ++ (new_task uid token_id n_samples now ∷ []) })
  cancel_reads :
      (w : World) (uid : ℕ)
      → may_cancel uid w.db ≡ true
      → Step w (record w { cancelling = uid ∷ w.cancelling })
  cancel_deletes :
      (w : World) (before after : List ℕ) (uid : ℕ)
      → w.cancelling ≡ before ++ (uid ∷ after)
      → Step w (record w { db = delete_task uid w.db; cancelling = before ++ after })
  removes : (w : World) (drops : Task → Bool) → Step w (record w { db = delete drops w.db })
  selects :
      (w : World) (server : Option Text) (t : Task)
      → w.selected ≡ none
      → w.busy ≡ none
      → select_task server w.db ≡ some t
      → Step w (record w { selected = some t.uid })
  commits :
      (w : World) (uid : ℕ) (t : Task)
      → w.busy ≡ none
      → w.selected ≡ some uid
      → find uid w.db ≡ some t
      → Step w (record w { db = commit_running uid w.db; selected = none; busy = some uid })
  commit_fails :
      (w : World) (uid : ℕ)
      → w.selected ≡ some uid
      → find uid w.db ≡ none
      → Step w (record w { selected = none })
  completes :
      (w : World) (uid now : ℕ) (outcome : Option Text)
      → w.busy ≡ some uid
      → Step w (record w { db = complete uid now outcome w.db; selected = none; busy = none })
  restarts :
      (w : World) (now : ℕ)
      → Step w (record w { db = recover_stale_tasks now w.db; selected = none; busy = none })
  cleans :
      (w : World) (cutoff : ℕ)
      → w.busy ≡ none
      → Step w (record w { db = cleanup_old_tasks cutoff w.db })

pub data Reach : World → Type 0 where
  begin : Reach (record { db = []; selected = none; busy = none; cancelling = [] })
  next : {v w : World} → Reach v → Step v w → Reach w
