-- ===== src/Worker/Retry.antt =====
-- worker/worker.py, `_with_rf_retry`: failed captures are repeated, other failures are not.
use usrp_playground.Prelude.{
  ℕ, zero, suc, ◌+◌, ◌≤◌, ◌<◌, ◌≡◌, refl, ◌⊎◌, inl, inr, sym, ◌==◌, ==_iff, Bool, true, not, ◌||◌,
  if◌then◌else◌, arith, Bool-cases,
}
use usrp_playground.Prelude.Text.{Text, codes, contains}

-- How a call ends. A `RuntimeError` comes with its message.
pub data Outcome {ℓ} (A : Type ℓ) : Type ℓ where
  returned : A → Outcome A
  runtime_error : Text → Outcome A
  other_error : Outcome A

unfoldable pub is_transient : Text → Bool
unfolding contains
is_transient msg =
    contains (codes "OVERFLOW") msg
    || contains (codes "Out of sequence") msg
    || contains (codes "ERROR_CODE_LATE") msg
    || contains (codes "RX stream timeout") msg

module _ {ℓ} {A : Type ℓ} where
  -- The loop from one attempt on, with `more` attempts after it: how it ends, and the number of the
  -- last attempt. `fn n` is how the n-th call ends.
  unfoldable pub attempts_from : (ℕ → Outcome A) → ℕ → ℕ → Outcome A × ℕ
  attempts_from fn attempt zero = (fn attempt, attempt)
  attempts_from fn attempt (suc more) = elim (fn attempt) [
    | returned a ↦ (returned a, attempt)
    | runtime_error msg ↦
        if not (is_transient msg)
        then (runtime_error msg, attempt)
        else attempts_from fn (attempt + 1) more
    | other_error ↦ (other_error, attempt)
  ]

  -- `attempts` is one more than its argument here, as the loop is never empty.
  unfoldable pub with_rf_retry : (ℕ → Outcome A) → ℕ → Outcome A × ℕ
  unfolding attempts_from
  with_rf_retry fn more = attempts_from fn 1 more

  abbrev pub IsTransient : Outcome A → Type 0
  IsTransient (runtime_error msg) = is_transient msg ≡ true
  IsTransient _ = ⊥

  -- The loop stops at attempt `n`.
  pub record StopsAt (fn : ℕ → Outcome A) (first last n : ℕ) : Type 0 where
    pub from : first ≤ n
    pub until : n ≤ last
    pub before : (m : ℕ) → first ≤ m → m < n → IsTransient (fn m)
    pub at : (n ≡ last) ⊎ (¬ IsTransient (fn n))

  stop_here :
      (fn : ℕ → Outcome A) (first more : ℕ)
      → ¬ IsTransient (fn first)
      → StopsAt fn first (first + more) first
  stop_here fn first more final = record {
    from = omega arith;
    until = omega arith;
    before = λ m a b. absurd (omega arith);
    at = inr final;
  }

  go_on :
      (fn : ℕ → Outcome A) (first more n : ℕ)
      → IsTransient (fn first)
      → StopsAt fn (first + 1) (first + 1 + more) n
      → StopsAt fn first (first + suc more) n
  go_on fn first more n failed s = record {
    from = omega (arith, s.from);
    until = omega (arith, s.until);
    before = λ m a b. elim (Bool-cases (m == first)) [
      | inl e ↦ rw ((==_iff m first).0 e) failed
      | inr e ↦ s.before m (ground arith) b
    ];
    at = elim s.at [ inl e ↦ inl (omega arith) | inr e ↦ inr e ];
  }

  -- The outcome is that of the last attempt made, and the loop was right to stop there.
  abbrev pub Stops : (ℕ → Outcome A) → ℕ → ℕ → Outcome A × ℕ → Type ℓ
  Stops fn first last r = (r.0 ≡ fn r.1) × StopsAt fn first last r.1

  one_round :
      (fn : ℕ → Outcome A) (first more : ℕ) (rest : Outcome A × ℕ)
      → Stops fn (first + 1) (first + 1 + more) rest
      → (o : Outcome A) → fn first ≡ o
      → Stops fn first (first + suc more) (elim o [
        | returned a ↦ (returned a, first)
        | runtime_error msg ↦ if not (is_transient msg) then (runtime_error msg, first) else rest
        | other_error ↦ (other_error, first)
      ])
  one_round fn first more rest s (returned a) e =
      (sym e, stop_here fn first (suc more) (rw e (λ q. q)))
  one_round fn first more rest s other_error e =
      (sym e, stop_here fn first (suc more) (rw e (λ q. q)))
  one_round fn first more rest s (runtime_error msg) e = elim (Bool-cases (is_transient msg)) [
    | inl t ↦ rw t (s.0, go_on fn first more rest.1 (rw e t) s.1)
    | inr t ↦ rw t (sym e, stop_here fn first (suc more) (rw e (λ q. ground arith)))
  ]

  attempts_from-Stops :
      (fn : ℕ → Outcome A) (first more : ℕ)
      → Stops fn first (first + more) (attempts_from fn first more)
  unfolding attempts_from
  attempts_from-Stops fn first zero = (
    refl,
    record {
      from = omega arith;
      until = omega arith;
      before = λ m a b. absurd (omega arith);
      at = inl (omega arith);
    },
  )
  attempts_from-Stops fn first (suc more) =
      one_round fn first more (attempts_from fn (first + 1) more)
        (attempts_from-Stops fn (first + 1) more) (fn first) refl

  -- With at most `more + 1` attempts: the result is that of one attempt; every attempt before it
  -- failed with a transient error, and it is the last allowed or did not fail so itself.
  pub with_rf_retry_lem :
      (fn : ℕ → Outcome A) (more : ℕ) → Stops fn 1 (1 + more) (with_rf_retry fn more)
  unfolding with_rf_retry
  with_rf_retry_lem fn more = attempts_from-Stops fn 1 more
