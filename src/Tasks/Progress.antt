-- ===== src/Tasks/Progress.antt =====
-- The life of a task goes one way: PD, R, D. What is done stays as it is until it is cleaned up.
use usrp_playground.Prelude.{
  ℕ, ◌≤◌, ◌≡◌, refl, sym, ap, ◌∙◌, subst, inl, inr, Bool, [], ◌∷◌, Option, none, some, ◌==◌, ==_iff,
  ltb, if◌then◌else◌, arith, Bool-cases,
}
use usrp_playground.Prelude.Text.{Text}
use usrp_playground.Tasks.{
  Task, Table, State, pending, running, done, is_running, find, update, delete, complete,
  start_task, finish_task, new_task, restart_message, recover_stale_tasks, cleanup_old_tasks,
  commit_running, delete_task, World, Step, submit, cancel_reads, cancel_deletes, removes, selects,
  commits, commit_fails, completes, restarts, cleans,
}
use usrp_playground.Tasks.Table.{
  HasKeys, find-uid, All-find, find-update_self, find-update_ne, find-append, find-delete_kept,
  find-delete_dropped,
}
use usrp_playground.Tasks.Queue.{finish_task-uid, update_absent}
use usrp_playground.Tasks.Consistent.{IsConsistent, IsSelected}

abbrev pub rank : State → ℕ
rank pending = 0
rank running = 1
rank done = 2

-- `u` is a later version of the row `t`.
pub record Advances (t u : Task) : Type 0 where
  pub forward : rank t.state ≤ rank u.state
  pub settled : t.state ≡ done → u ≡ t

abbrev pub Follows : Task → Option Task → Type 0
Follows t none = Unit {0}
Follows t (some u) = Advances t u

stays : (t : Task) → Advances t t
stays t = record { forward = omega arith; settled = λ q. refl }

starts : (t : Task) → t.state ≡ pending → Advances t (start_task t)
starts t p = record { forward = ground arith; settled = λ q. ground arith }

finishes :
    (now : ℕ) (o : Option Text) (t : Task) → t.state ≡ running → Advances t (finish_task now o t)
finishes now none t r = record { forward = ground arith; settled = λ q. ground arith }
finishes now (some m) t r = record { forward = ground arith; settled = λ q. ground arith }

delete-Follows :
    (uid : ℕ) (p : Task → Bool) (db : Table) (t : Task)
    → HasKeys db
    → find uid db ≡ some t
    → Follows t (find uid (delete p db))
delete-Follows uid p db t k e = elim (Bool-cases (p t)) [
  | inl d ↦ rw (find-delete_dropped uid p db t k e d) tt
  | inr d ↦ rw (find-delete_kept uid p db t e d) (stays t)
]

update-Follows :
    (i uid : ℕ) (f : Task → Task) (same : (t : Task) → (f t).uid ≡ t.uid) (db : Table) (x t : Task)
    → find i db ≡ some x
    → Advances x (f x)
    → find uid db ≡ some t
    → Follows t (find uid (update i f db))
update-Follows i uid f same db x t at adv e = elim (Bool-cases (uid == i)) [
  | inl h ↦
      let q : uid ≡ i = (==_iff uid i).0 h in
      let p : x ≡ t = ground arith in
      rw (q, find-update_self i f same db x at) (subst (λ y. Advances y (f x)) p adv)
  | inr h ↦ rw (find-update_ne i f same uid db (λ q. ground arith), e) (stays t)
]

abbrev recovered : ℕ → Task → Task
recovered now t = if is_running t.state then finish_task now (some restart_message) t else t

find-recover :
    (now uid : ℕ) (db : Table) (t : Task)
    → find uid db ≡ some t
    → find uid (recover_stale_tasks now db) ≡ some (recovered now t)
unfolding find recover_stale_tasks
find-recover now uid [] t e = absurd (ground arith)
find-recover now uid (u ∷ us) t e = ground (arith, find-recover now uid us t)

recovers : (now : ℕ) (t : Task) → Advances t (recovered now t)
recovers now t = elim (Bool-cases (is_running t.state)) [
  | inl r ↦ rw r (finishes now (some restart_message) t (ground arith))
  | inr r ↦ rw r (stays t)
]

-- One step of the services moves no task back, and leaves a done task as it is or removes it.
pub Step-Follows :
    {v w : World}
    → Step v w
    → IsConsistent v
    → (uid : ℕ) (t : Task) → find uid v.db ≡ some t
    → Follows t (find uid w.db)
unfolding cleanup_old_tasks complete commit_running delete_task
Step-Follows (submit w i token n now e fresh) h uid t at =
    rw (find-append uid w.db (new_task i token n now ∷ []) t at) (stays t)
Step-Follows (cancel_reads w i e) h uid t at = rw at (stays t)
Step-Follows (cancel_deletes w before after i e) h uid t at =
    delete-Follows uid (λ u. u.uid == i) w.db t h.keys at
Step-Follows (removes w drops) h uid t at = delete-Follows uid drops w.db t h.keys at
Step-Follows (selects w server x free idle e) h uid t at = rw at (stays t)
Step-Follows (commits w i x idle chosen found) h uid t at =
    let key = find-uid i w.db x found in
    let waits : x.state ≡ pending =
      All-find (IsSelected w.selected) i w.db x h.waits found (chosen ∙ ap some (sym key)) in
    update-Follows i uid start_task (λ u. refl) w.db x t found (starts x waits) at
Step-Follows (commit_fails w i chosen gone) h uid t at = rw at (stays t)
Step-Follows (completes w i now o b) h uid t at = elim (h.held i b) [
  | inl gone ↦ rw (update_absent i (finish_task now o) w.db gone, at) (stays t)
  | inr (x, found, r) ↦
      update-Follows i uid (finish_task now o) (finish_task-uid now o) w.db x t found
        (finishes now o x r) at
]
Step-Follows (restarts w now) h uid t at = rw (find-recover now uid w.db t at) (recovers now t)
Step-Follows (cleans w cutoff idle) h uid t at =
    delete-Follows uid (λ u. ltb u.created_at cutoff) w.db t h.keys at
