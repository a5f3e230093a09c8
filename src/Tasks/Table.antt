-- ===== src/Tasks/Table.antt =====
-- Laws of the table's operations.
use usrp_playground.Prelude.{
  ℕ, ◌≡◌, ◌≢◌, refl, Bool, true, false, [], ◌∷◌, ◌++◌, none, some, ◌==◌, arith, All, Bool-cases,
  inl, inr, subst,
}
use usrp_playground.Tasks.{Task, Table, find, update, delete}

pub find-uid : (uid : ℕ) (db : Table) (t : Task) → find uid db ≡ some t → t.uid ≡ uid
unfolding find
find-uid uid [] t e = cc
find-uid uid (u ∷ us) t e = ground (arith, find-uid uid us t)

module _ (uid : ℕ) (f : Task → Task) (same : (t : Task) → (f t).uid ≡ t.uid) where
  pub find-update_self :
      (db : Table) (t : Task) → find uid db ≡ some t → find uid (update uid f db) ≡ some (f t)
  unfolding find update
  find-update_self [] t e = cc
  find-update_self (u ∷ us) t e = ground (arith, same u, find-update_self us t)

  pub find-update_ne : (v : ℕ) (db : Table) → v ≢ uid → find v (update uid f db) ≡ find v db
  unfolding find update
  find-update_ne v [] ne = refl
  find-update_ne v (u ∷ us) ne = ground (arith, same u, find-update_ne v us)

  pub find-none-update : (v : ℕ) (db : Table) → find v db ≡ none → find v (update uid f db) ≡ none
  unfolding find update
  find-none-update v [] e = refl
  find-none-update v (u ∷ us) e = ground (arith, same u, find-none-update v us)

pub find-none-delete :
    (v : ℕ) (p : Task → Bool) (db : Table) → find v db ≡ none → find v (delete p db) ≡ none
unfolding find delete
find-none-delete v p [] e = refl
find-none-delete v p (u ∷ us) e = ground (arith, find-none-delete v p us)

pub find-none-append :
    (v : ℕ) (db : Table) (t : Task) → v ≢ t.uid → find v db ≡ none → find v (db ++ (t ∷ [])) ≡ none
unfolding find
find-none-append v [] t ne e = ground arith
find-none-append v (u ∷ us) t ne e = ground (arith, find-none-append v us t)

-- The primary key.
abbrev pub HasKeys : Table → Type 0
HasKeys [] = Unit
HasKeys (t ∷ ts) = (find t.uid ts ≡ none) × HasKeys ts

pub update-HasKeys :
    (uid : ℕ) (f : Task → Task) (same : (t : Task) → (f t).uid ≡ t.uid) (db : Table)
    → HasKeys db
    → HasKeys (update uid f db)
unfolding update
update-HasKeys uid f same [] h = tt
update-HasKeys uid f same (t ∷ ts) h =
    ground
      (arith, same t, update-HasKeys uid f same ts h.1, find-none-update uid f same t.uid ts h.0)

pub delete-HasKeys : (p : Task → Bool) (db : Table) → HasKeys db → HasKeys (delete p db)
unfolding delete
delete-HasKeys p [] h = tt
delete-HasKeys p (t ∷ ts) h =
    ground (arith, delete-HasKeys p ts h.1, find-none-delete t.uid p ts h.0)

pub append-HasKeys :
    (db : Table) (t : Task) → HasKeys db → find t.uid db ≡ none → HasKeys (db ++ (t ∷ []))
unfolding find
append-HasKeys [] t h e = (refl, tt)
append-HasKeys (u ∷ us) t h e = ground (arith, append-HasKeys us t h.1, find-none-append u.uid us t)

-- `delete` finds what it keeps.
pub find-delete_kept :
    (v : ℕ) (p : Task → Bool) (db : Table) (t : Task)
    → find v db ≡ some t
    → p t ≡ false
    → find v (delete p db) ≡ some t
unfolding find delete
find-delete_kept v p [] t e k = cc
find-delete_kept v p (u ∷ us) t e k = ground (arith, find-delete_kept v p us t)

pub find-append :
    (v : ℕ) (db ts : Table) (t : Task) → find v db ≡ some t → find v (db ++ ts) ≡ some t
unfolding find
find-append v [] ts t e = cc
find-append v (u ∷ us) ts t e = ground (arith, find-append v us ts t)

-- An update of the one row with a key, seen by a predicate on all rows.
module _ (P Q : Task → Type 0) (uid : ℕ) (f : Task → Task) where
  All-update-none :
      (db : Table)
      → ((u : Task) → u.uid ≢ uid → P u → Q u)
      → find uid db ≡ none
      → All P db
      → All Q (update uid f db)
  unfolding update find
  All-update-none [] miss e a = tt
  All-update-none (u ∷ us) miss e a = elim (Bool-cases (u.uid == uid)) [
    | inl h ↦ absurd (ground arith)
    | inr h ↦ rw h (miss u (λ q. ground arith) a.0, All-update-none us miss (ground arith) a.1)
  ]

  pub All-update :
      (db : Table) (t : Task)
      → HasKeys db
      → find uid db ≡ some t
      → Q (f t)
      → ((u : Task) → u.uid ≢ uid → P u → Q u)
      → All P db
      → All Q (update uid f db)
  unfolding update find
  All-update [] t k e q miss a = absurd (ground arith)
  All-update (u ∷ us) t k e q miss a = elim (Bool-cases (u.uid == uid)) [
    | inl h ↦
        let same : t ≡ u = ground arith in
        rw h (subst (λ x. Q (f x)) same q, All-update-none us miss (ground arith) a.1)
    | inr h ↦ rw h (miss u (λ p. ground arith) a.0, All-update us t k.1 (ground arith) q miss a.1)
  ]

  pub All-update_each :
      (db : Table)
      → ((u : Task) → u.uid ≡ uid → P u → Q (f u))
      → ((u : Task) → u.uid ≢ uid → P u → Q u)
      → All P db
      → All Q (update uid f db)
  unfolding update
  All-update_each [] hit miss a = tt
  All-update_each (u ∷ us) hit miss a = elim (Bool-cases (u.uid == uid)) [
    | inl h ↦ rw h (hit u (ground arith) a.0, All-update_each us hit miss a.1)
    | inr h ↦ rw h (miss u (λ q. ground arith) a.0, All-update_each us hit miss a.1)
  ]

module _ (P : Task → Type 0) where
  pub All-delete : (p : Task → Bool) (db : Table) → All P db → All P (delete p db)
  unfolding delete
  All-delete p [] a = tt
  All-delete p (t ∷ ts) a = elim (Bool-cases (p t)) [
    | inl e ↦ rw e (All-delete p ts a.1)
    | inr e ↦ rw e (a.0, All-delete p ts a.1)
  ]

  pub All-append : (db : Table) (t : Task) → All P db → P t → All P (db ++ (t ∷ []))
  All-append [] t a p = (p, tt)
  All-append (u ∷ us) t a p = (a.0, All-append us t a.1 p)

  pub All-find : (uid : ℕ) (db : Table) (t : Task) → All P db → find uid db ≡ some t → P t
  unfolding find
  All-find uid [] t a e = cc
  All-find uid (u ∷ us) t a e = elim (Bool-cases (u.uid == uid)) [
    | inl h ↦ subst P (ground arith) a.0
    | inr h ↦ All-find uid us t a.1 (ground arith)
  ]

pub find-delete_dropped :
    (v : ℕ) (p : Task → Bool) (db : Table) (t : Task)
    → HasKeys db
    → find v db ≡ some t
    → p t ≡ true
    → find v (delete p db) ≡ none
unfolding find delete
find-delete_dropped v p [] t k e d = cc
find-delete_dropped v p (u ∷ us) t k e d =
    ground (arith, find-delete_dropped v p us t k.1, find-none-delete v p us)
