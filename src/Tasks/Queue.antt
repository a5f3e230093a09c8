-- ===== src/Tasks/Queue.antt =====
-- worker/worker.py, `poll_and_process`: the queue is served in the order of `created_at`.
use usrp_playground.Prelude.{
  ℕ, suc, ◌+◌, ◌≤◌, ◌≡◌, ◌≢◌, refl, ◌∙◌, ◌⊎◌, inl, inr, true, false, [], ◌∷◌, Option, none, some,
  ltb, if◌then◌else◌, arith, All, Option-cases,
}
use usrp_playground.Prelude.Text.{Text}
use usrp_playground.Tasks.{
  Task, Table, pending, is_pending, done, find, update, oldest_pending, queue_position,
  server_running, claim, select_task, commit_running, start_task, finish_task, poll_and_process,
}
use usrp_playground.Tasks.Table.{HasKeys, find-update_self, find-update_ne}

-- `t` waits, and nothing that waits is older.
abbrev pub IsNext : Task → Table → Type 0
IsNext t db =
    (t.state ≡ pending) × All (λ (u : Task). u.state ≡ pending → t.created_at ≤ u.created_at) db

All-le :
    (m n : ℕ) (db : Table)
    → m ≤ n
    → All (λ (u : Task). u.state ≡ pending → n ≤ u.created_at) db
    → All (λ (u : Task). u.state ≡ pending → m ≤ u.created_at) db
All-le m n [] h a = tt
All-le m n (u ∷ us) h a = (λ p. omega (arith, a.0 p), All-le m n us h a.1)

abbrev NonePending : Table → Type 0
NonePending db = All (λ (u : Task). is_pending u.state ≡ false) db

vacuous :
    (n : ℕ) (db : Table)
    → NonePending db
    → All (λ (u : Task). u.state ≡ pending → n ≤ u.created_at) db
vacuous n [] a = tt
vacuous n (u ∷ us) a = (λ p. ground arith, vacuous n us a.1)

pub oldest_pending-none : (db : Table) → oldest_pending db ≡ none → NonePending db
unfolding oldest_pending
oldest_pending-none [] e = tt
oldest_pending-none (u ∷ us) e = ground (arith, oldest_pending-none us)

oldest_pending-find-none :
    (uid : ℕ) (db : Table) (t : Task)
    → find uid db ≡ none
    → oldest_pending db ≡ some t
    → t.uid ≢ uid
unfolding oldest_pending find
oldest_pending-find-none uid [] t n e = λ q. cc
oldest_pending-find-none uid (u ∷ us) t n e = ground (arith, oldest_pending-find-none uid us t)

pub find-oldest_pending :
    (db : Table) (t : Task) → HasKeys db → oldest_pending db ≡ some t → find t.uid db ≡ some t
unfolding oldest_pending find
find-oldest_pending [] t k e = cc
find-oldest_pending (u ∷ us) t k e =
    ground (arith, find-oldest_pending us t k.1, oldest_pending-find-none u.uid us t k.0)

pub oldest_pending-IsNext : (db : Table) (t : Task) → oldest_pending db ≡ some t → IsNext t db
unfolding oldest_pending
oldest_pending-IsNext [] t e = cc
oldest_pending-IsNext (u ∷ us) t e = elim (Option-cases (oldest_pending us)) [
  | inl q ↦ ground (arith, vacuous t.created_at us (oldest_pending-none us q))
  | inr (v, q) ↦ ground (arith, oldest_pending-IsNext us v q, All-le t.created_at v.created_at us)
]

module _ (server : Option Text) (db : Table) (t : Task) (db' : Table) where
  pub claim_parts :
      claim server db ≡ some (t, db')
      → (server_running server ≡ true)
        × (oldest_pending db ≡ some t)
        × (db' ≡ update t.uid start_task db)
  unfolding claim select_task commit_running
  claim_parts e = ground arith

pub select_task-IsNext :
    (server : Option Text) (db : Table) (t : Task)
    → select_task server db ≡ some t
    → (oldest_pending db ≡ some t) × IsNext t db
unfolding select_task
select_task-IsNext server db t e =
    let oldest : oldest_pending db ≡ some t = ground (arith, e) in
    (oldest, oldest_pending-IsNext db t oldest)

-- A claim takes the oldest waiting task, marks it running and changes no other task; nothing is
-- claimed while the server sleeps.
pub claim_lem :
    (server : Option Text) (db db' : Table) (t : Task)
    → HasKeys db
    → claim server db ≡ some (t, db')
    → (server_running server ≡ true)
      × IsNext t db
      × (find t.uid db' ≡ some (start_task t))
      × ((v : ℕ) → v ≢ t.uid → find v db' ≡ find v db)
claim_lem server db db' t k e =
    let (on, oldest, same) = claim_parts server db t db' e in
    (
      on,
      oldest_pending-IsNext db t oldest,
      rw same
          (find-update_self t.uid start_task (λ u. refl) db t (find-oldest_pending db t k oldest)),
      λ v ne. rw same (find-update_ne t.uid start_task (λ u. refl) v db ne),
    )

pub finish_task-uid : (now : ℕ) (o : Option Text) (t : Task) → (finish_task now o t).uid ≡ t.uid
finish_task-uid now none t = refl
finish_task-uid now (some m) t = refl

polled :
    (server : Option Text) (process : ℕ → Option Text) (now : ℕ) (db : Table) (t : Task)
    → server_running server ≡ true
    → oldest_pending db ≡ some t
    → poll_and_process server process now db
      ≡ (update t.uid (finish_task now (process t.uid)) (update t.uid start_task db), true)
unfolding poll_and_process claim select_task commit_running
polled server process now db t on oldest = ground arith

-- What processing makes of a row: it is done at that time, with the error of a failure, and is
-- otherwise as it was.
pub record IsProcessed (now : ℕ) (outcome : Option Text) (t u : Task) : Type 0 where
  pub uid : u.uid ≡ t.uid
  pub token_id : u.token_id ≡ t.token_id
  pub n_samples : u.n_samples ≡ t.n_samples
  pub created_at : u.created_at ≡ t.created_at
  pub ended : u.state ≡ done
  pub done_at : u.done_at ≡ some now
  pub returned : outcome ≡ none → u.error_message ≡ t.error_message
  pub failed : (e : Text) → outcome ≡ some e → u.error_message ≡ some e

finish_task-IsProcessed :
    (now : ℕ) (o : Option Text) (t : Task) → IsProcessed now o t (finish_task now o (start_task t))
finish_task-IsProcessed now none t = record {
  uid = refl;
  token_id = refl;
  n_samples = refl;
  created_at = refl;
  ended = refl;
  done_at = refl;
  returned = λ h. refl;
  failed = λ e h. cc;
}
finish_task-IsProcessed now (some m) t = record {
  uid = refl;
  token_id = refl;
  n_samples = refl;
  created_at = refl;
  ended = refl;
  done_at = refl;
  returned = λ h. cc;
  failed = λ e h. h;
}

-- `poll_and_process` on a running server with waiting tasks reports work, if nobody else is at the table
-- meanwhile: the oldest of them is done, with the time and, if processing failed, the error, and its
-- other columns as before; no other task is touched.
pub poll_and_process_lem :
    (server : Option Text) (process : ℕ → Option Text) (now : ℕ) (db : Table) (t : Task)
    → HasKeys db
    → server_running server ≡ true
    → oldest_pending db ≡ some t
    → let r = poll_and_process server process now db in
      (r.1 ≡ true)
      × IsNext t db
      × ((u : Task) × (find t.uid r.0 ≡ some u) × IsProcessed now (process t.uid) t u)
      × ((v : ℕ) → v ≢ t.uid → find v r.0 ≡ find v db)
poll_and_process_lem server process now db t k on oldest =
    let started = update t.uid start_task db in
    let keys = find-oldest_pending db t k oldest in
    let fin = finish_task now (process t.uid) in
    let same = finish_task-uid now (process t.uid) in
    rw (polled server process now db t on oldest) (
      refl,
      oldest_pending-IsNext db t oldest,
      (
        fin (start_task t),
        find-update_self t.uid fin same started (start_task t)
            (find-update_self t.uid start_task (λ u. refl) db t keys),
        finish_task-IsProcessed now (process t.uid) t,
      ),
      λ v ne.
          find-update_ne t.uid fin same v started ne
          ∙ find-update_ne t.uid start_task (λ u. refl) v db ne,
    )

-- A server that sleeps, or an empty queue: nothing changes.
pub poll_and_process_idle :
    (server : Option Text) (process : ℕ → Option Text) (now : ℕ) (db : Table)
    → (server_running server ≡ false) ⊎ (oldest_pending db ≡ none)
    → poll_and_process server process now db ≡ (db, false)
unfolding poll_and_process claim select_task
poll_and_process_idle server process now db h = ground arith

pub update_absent :
    (uid : ℕ) (f : Task → Task) (db : Table) → find uid db ≡ none → update uid f db ≡ db
unfolding find update
update_absent uid f [] e = refl
update_absent uid f (u ∷ us) e = ground (arith, update_absent uid f us)

queue_position-start :
    (at uid : ℕ) (t : Task) (db : Table)
    → HasKeys db
    → find uid db ≡ some t
    → t.state ≡ pending
    → queue_position at (update uid start_task db) + (if ltb t.created_at at then 1 else 0)
      ≡ queue_position at db
unfolding queue_position update find
queue_position-start at uid t [] k e p = cc
queue_position-start at uid t (u ∷ us) k e p =
    ground (arith, update_absent uid start_task us, queue_position-start at uid t us k.1)

position_zero :
    (at n : ℕ) (db : Table)
    → All (λ (u : Task). u.state ≡ pending → n ≤ u.created_at) db
    → at ≤ n
    → queue_position at db ≡ 0
unfolding queue_position
position_zero at n [] a h = refl
position_zero at n (u ∷ us) a h = ground (arith, a.0, position_zero at n us a.1)

-- Each claim brings every client that waits behind another one step forward: a position `k + 1`
-- becomes `k`.
pub claim_advances :
    (server : Option Text) (db db' : Table) (t : Task) (at k : ℕ)
    → HasKeys db
    → claim server db ≡ some (t, db')
    → queue_position at db ≡ suc k
    → queue_position at db' ≡ k
claim_advances server db db' t at k keys e p =
    let (on, oldest, same) = claim_parts server db t db' e in
    let (waits, least) = oldest_pending-IsNext db t oldest in
    let moved =
      queue_position-start at t.uid t db keys (find-oldest_pending db t keys oldest) waits in
    rw same (ground (arith, moved, position_zero at t.created_at db least))
