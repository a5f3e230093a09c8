-- ===== src/Tasks/Lifecycle.antt =====
-- The life of a task: what holds of the table whatever the two services do, and in which order.
use usrp_playground.Prelude.{
  ℕ, ◌≡◌, refl, sym, ap, ◌∙◌, inl, inr, [], ◌∷◌, ◌++◌, Option, none, some, ◌==◌, ltb, arith, All,
  Bool-cases,
}
use usrp_playground.Prelude.Text.{Text}
use usrp_playground.Tasks.{
  Task, Table, pending, done, is_running, find, commit_running, complete, start_task, finish_task,
  new_task, restart_message, recover_stale_tasks, cleanup_old_tasks, delete_task, World, Step,
  Reach, submit, cancel_reads, cancel_deletes, removes, selects, commits, commit_fails, completes,
  restarts, cleans, begin, next,
}
use usrp_playground.Tasks.Table.{
  HasKeys, find-uid, find-update_self, update-HasKeys, All-update, All-update_each, All-find,
}
use usrp_playground.Tasks.Queue.{finish_task-uid}
use usrp_playground.Tasks.Consistent.{
  IsTimed, IsOwned, IsSelected, IsConsistent, submit-IsConsistent, delete-IsConsistent,
  selects-IsConsistent,
}

started-IsTimed : (t : Task) → t.state ≡ pending → IsTimed t → IsTimed (start_task t)
started-IsTimed t p h = ground arith

finished-IsTimed : (now : ℕ) (o : Option Text) (t : Task) → IsTimed (finish_task now o t)
finished-IsTimed now none t = inl (refl, λ q. ground arith)
finished-IsTimed now (some m) t = inl (refl, λ q. ground arith)

finished-done : (now : ℕ) (o : Option Text) (t : Task) → (finish_task now o t).state ≡ done
finished-done now none t = refl
finished-done now (some m) t = refl

commits-IsConsistent :
    (w : World) (uid : ℕ) (t : Task)
    → w.busy ≡ none
    → w.selected ≡ some uid
    → find uid w.db ≡ some t
    → IsConsistent w
    → IsConsistent (record w { db = commit_running uid w.db; selected = none; busy = some uid })
commits-IsConsistent w uid t idle chosen at v =
    let key = find-uid uid w.db t at in
    let waits : t.state ≡ pending =
      All-find (IsSelected w.selected) uid w.db t v.waits at (chosen ∙ ap some (sym key)) in
    unfold commit_running in
    record {
      keys = update-HasKeys uid start_task (λ u. refl) w.db v.keys;
      timed =
          All-update IsTimed IsTimed uid start_task w.db t v.keys at
            (started-IsTimed t waits (All-find IsTimed uid w.db t v.timed at)) (λ u ne p. p)
            v.timed;
      waits =
          All-update_each (IsSelected w.selected) (IsSelected none) uid start_task w.db
            (λ u e p q. absurd (ground arith)) (λ u ne p q. absurd (ground arith)) v.waits;
      owned =
          All-update_each (IsOwned w.busy) (IsOwned (some uid)) uid start_task w.db
            (λ u e p q. ap some (sym e)) (λ u ne p q. absurd (ground (arith, p q, idle))) v.owned;
      held = λ i b.
          let q : i ≡ uid = ground arith in
          inr (start_task t, rw q (find-update_self uid start_task (λ u. refl) w.db t at), refl);
    }

completes-IsConsistent :
    (w : World) (uid now : ℕ) (o : Option Text)
    → w.busy ≡ some uid
    → IsConsistent w
    → IsConsistent (record w { db = complete uid now o w.db; selected = none; busy = none })
completes-IsConsistent w uid now o b v =
    let fin = finish_task now o in
    unfold complete in
    record {
      keys = update-HasKeys uid fin (finish_task-uid now o) w.db v.keys;
      timed =
          All-update_each IsTimed IsTimed uid fin w.db (λ u e p. finished-IsTimed now o u)
            (λ u ne p. p) v.timed;
      waits =
          All-update_each (IsSelected w.selected) (IsSelected none) uid fin w.db
            (λ u e p q. absurd (ground arith)) (λ u ne p q. absurd (ground arith)) v.waits;
      owned =
          All-update_each (IsOwned w.busy) (IsOwned none) uid fin w.db
            (λ u e p q. ground (arith, finished-done now o u)) (λ u ne p q. ground (arith, p q))
            v.owned;
      held = λ i q. absurd (ground arith);
    }

module _ (now : ℕ) where
  recover-find-none :
      (uid : ℕ) (db : Table) → find uid db ≡ none → find uid (recover_stale_tasks now db) ≡ none
  unfolding find recover_stale_tasks
  recover-find-none uid [] e = refl
  recover-find-none uid (t ∷ ts) e = ground (arith, recover-find-none uid ts)

  recover-HasKeys : (db : Table) → HasKeys db → HasKeys (recover_stale_tasks now db)
  unfolding recover_stale_tasks
  recover-HasKeys [] k = tt
  recover-HasKeys (t ∷ ts) k =
      ground (arith, recover-HasKeys ts k.1, recover-find-none t.uid ts k.0)

  recover-IsTimed : (db : Table) → All IsTimed db → All IsTimed (recover_stale_tasks now db)
  unfolding recover_stale_tasks
  recover-IsTimed [] a = tt
  recover-IsTimed (t ∷ ts) a = elim (Bool-cases (is_running t.state)) [
    | inl r ↦ rw r (finished-IsTimed now (some restart_message) t, recover-IsTimed ts a.1)
    | inr r ↦ rw r (a.0, recover-IsTimed ts a.1)
  ]

  recover-IsOwned : (db : Table) → All (IsOwned none) (recover_stale_tasks now db)
  unfolding recover_stale_tasks
  recover-IsOwned [] = tt
  recover-IsOwned (t ∷ ts) = elim (Bool-cases (is_running t.state)) [
    | inl r ↦ rw r (λ q. ground arith, recover-IsOwned ts)
    | inr r ↦ rw r (λ q. ground arith, recover-IsOwned ts)
  ]

unselected : (db : Table) → All (IsSelected none) db
unselected [] = tt
unselected (u ∷ us) = (λ q. absurd (ground arith), unselected us)

restarts-IsConsistent :
    (w : World) (now : ℕ)
    → IsConsistent w
    → IsConsistent (record w { db = recover_stale_tasks now w.db; selected = none; busy = none })
restarts-IsConsistent w now v = record {
  keys = recover-HasKeys now w.db v.keys;
  timed = recover-IsTimed now w.db v.timed;
  waits = unselected (recover_stale_tasks now w.db);
  owned = recover-IsOwned now w.db;
  held = λ uid b. absurd (ground arith);
}

Step-IsConsistent : {v w : World} → Step v w → IsConsistent v → IsConsistent w
Step-IsConsistent (submit w uid token n now e fresh) h =
    submit-IsConsistent w (new_task uid token n now) refl refl refl e fresh h
Step-IsConsistent (cancel_reads w uid e) h = record {
  keys = h.keys;
  timed = h.timed;
  waits = h.waits;
  owned = h.owned;
  held = h.held;
}
Step-IsConsistent (cancel_deletes w before after uid e) h =
    unfold delete_task in delete-IsConsistent w (λ u. u.uid == uid) (before ++ after) h
Step-IsConsistent (removes w drops) h = delete-IsConsistent w drops w.cancelling h
Step-IsConsistent (selects w server t free idle e) h = selects-IsConsistent w server t e h
Step-IsConsistent (commits w uid t idle chosen at) h = commits-IsConsistent w uid t idle chosen at h
Step-IsConsistent (commit_fails w uid chosen gone) h = record {
  keys = h.keys;
  timed = h.timed;
  waits = unselected w.db;
  owned = h.owned;
  held = h.held;
}
Step-IsConsistent (completes w uid now o b) h = completes-IsConsistent w uid now o b h
Step-IsConsistent (restarts w now) h = restarts-IsConsistent w now h
Step-IsConsistent (cleans w cutoff idle) h =
    unfold cleanup_old_tasks in delete-IsConsistent w (λ t. ltb t.created_at cutoff) w.cancelling h

-- Whatever submissions, cancellations, deletions by the administrator, claims, restarts and cleanups happen,
-- and in whatever order, where a cancellation and a claim each read first and write later: keys stay
-- unique; a task has an end time exactly if it is done, and an error only then; a task that the worker has
-- selected still waits, if it is there; a running task is the one that the worker holds; and that one is
-- running or has been deleted meanwhile. Every uid that is submitted is neither in the table nor held by the
-- worker.
pub Reach-IsConsistent : {w : World} → Reach w → IsConsistent w
Reach-IsConsistent begin = record {
  keys = tt;
  timed = tt;
  waits = tt;
  owned = tt;
  held = λ uid b. absurd (ground arith);
}
Reach-IsConsistent (next r s) = Step-IsConsistent s (Reach-IsConsistent r)
