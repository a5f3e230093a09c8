-- ===== src/Tasks/Consistent.antt =====
-- What holds of the table at any time, and is kept by submissions, deletions and selections.
use usrp_playground.Prelude.{
  ℕ, ◌≡◌, ◌≢◌, ap, subst, ◌∙◌, ◌⊎◌, inl, inr, Bool, List, [], ◌∷◌, ◌++◌, Option, none, some, ◌==◌,
  arith, All, Bool-cases,
}
use usrp_playground.Prelude.Text.{Text}
use usrp_playground.Tasks.{Task, Table, pending, running, done, find, delete, select_task, World}
use usrp_playground.Tasks.Table.{
  HasKeys, delete-HasKeys, append-HasKeys, find-append, find-delete_kept, find-delete_dropped,
  find-none-delete, find-none-append, All-delete, All-append,
}
use usrp_playground.Tasks.Queue.{find-oldest_pending, select_task-IsNext}

-- The columns agree with the state.
abbrev pub IsTimed : Task → Type 0
IsTimed t =
    ((t.state ≡ done) × (t.done_at ≢ none))
    ⊎ ((t.state ≢ done) × (t.done_at ≡ none) × (t.error_message ≡ none))

abbrev pub IsOwned : Option ℕ → Task → Type 0
IsOwned busy t = t.state ≡ running → busy ≡ some t.uid

-- A task that the worker has selected still waits.
abbrev pub IsSelected : Option ℕ → Task → Type 0
IsSelected selected t = selected ≡ some t.uid → t.state ≡ pending

-- Keys are unique, the columns agree, what the worker has selected waits, a running task is the worker's,
-- and the worker's is running or has been deleted.
pub record IsConsistent (w : World) : Type 0 where
  pub keys : HasKeys w.db
  pub timed : All IsTimed w.db
  pub waits : All (IsSelected w.selected) w.db
  pub owned : All (IsOwned w.busy) w.db
  pub held :
      (uid : ℕ)
      → w.busy ≡ some uid
      → (find uid w.db ≡ none) ⊎ ((t : Task) × (find uid w.db ≡ some t) × (t.state ≡ running))

pub submit-IsConsistent :
    (w : World) (t : Task)
    → t.state ≡ pending
    → t.done_at ≡ none
    → t.error_message ≡ none
    → find t.uid w.db ≡ none
    → w.busy ≢ some t.uid
    → IsConsistent w
    → IsConsistent (record w { db = w.db ++ (t ∷ []) })
submit-IsConsistent w t p d m e fresh v = record {
  keys = append-HasKeys w.db t v.keys e;
  timed = All-append IsTimed w.db t v.timed (inr (λ q. ground arith, d, m));
  waits = All-append (IsSelected w.selected) w.db t v.waits (λ q. p);
  owned = All-append (IsOwned w.busy) w.db t v.owned (λ q. ground arith);
  held = λ uid b. elim (v.held uid b) [
    | inl gone ↦ inl (find-none-append uid w.db t (λ q. fresh (b ∙ ap some q)) gone)
    | inr (u, at, r) ↦ inr (u, find-append uid w.db (t ∷ []) u at, r)
  ];
}

pub delete-IsConsistent :
    (w : World) (p : Task → Bool) (cancelling : List ℕ)
    → IsConsistent w
    → IsConsistent (record w { db = delete p w.db; cancelling = cancelling })
delete-IsConsistent w p cancelling v = record {
  keys = delete-HasKeys p w.db v.keys;
  timed = All-delete IsTimed p w.db v.timed;
  waits = All-delete (IsSelected w.selected) p w.db v.waits;
  owned = All-delete (IsOwned w.busy) p w.db v.owned;
  held = λ uid b. elim (v.held uid b) [
    | inl gone ↦ inl (find-none-delete uid p w.db gone)
    | inr (u, at, r) ↦ elim (Bool-cases (p u)) [
      | inl drop ↦ inl (find-delete_dropped uid p w.db u v.keys at drop)
      | inr keep ↦ inr (u, find-delete_kept uid p w.db u at keep, r)
    ]
  ];
}

absent-IsSelected : (uid : ℕ) (db : Table) → find uid db ≡ none → All (IsSelected (some uid)) db
unfolding find
absent-IsSelected uid [] e = tt
absent-IsSelected uid (u ∷ us) e = elim (Bool-cases (u.uid == uid)) [
  | inl h ↦ absurd (ground (arith, e, h))
  | inr h ↦ (λ q. absurd (ground (arith, h, q)), absent-IsSelected uid us (ground (arith, e, h)))
]

found-IsSelected :
    (uid : ℕ) (db : Table) (t : Task)
    → HasKeys db
    → find uid db ≡ some t
    → t.state ≡ pending
    → All (IsSelected (some uid)) db
unfolding find
found-IsSelected uid [] t keys at p = tt
found-IsSelected uid (u ∷ us) t keys at p = elim (Bool-cases (u.uid == uid)) [
  | inl h ↦
      let same : t ≡ u = ground (arith, at, h) in
      let key : u.uid ≡ uid = ground (arith, h) in
      (
        λ q. subst (λ (x : Task). x.state ≡ pending) same p,
        absent-IsSelected uid us (subst (λ i. find i us ≡ none) key keys.0),
      )
  | inr h ↦ (
    λ q. absurd (ground (arith, h, q)),
    found-IsSelected uid us t keys.1 (ground (arith, at, h)) p,
  )
]

pub selects-IsConsistent :
    (w : World) (server : Option Text) (t : Task)
    → select_task server w.db ≡ some t
    → IsConsistent w
    → IsConsistent (record w { selected = some t.uid })
selects-IsConsistent w server t e v = record {
  keys = v.keys;
  timed = v.timed;
  waits =
      let (oldest, (waits, least)) = select_task-IsNext server w.db t e in
      found-IsSelected t.uid w.db t v.keys (find-oldest_pending w.db t v.keys oldest) waits;
  owned = v.owned;
  held = v.held;
}
