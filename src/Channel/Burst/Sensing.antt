-- ===== src/Channel/Burst/Sensing.antt =====
-- What listening before a burst finds out and leaves behind.
use usrp_playground.Prelude.{
  ℕ, zero, suc, ◌≡◌, ◌<◌, refl, ap, subst, sym, ◌∙◌, ◌⊎◌, inl, inr, Bool, true, false, List, [],
  ◌∷◌, ◌++◌, ◌+◌, arith, length, length-append, All, ltb, ltb→lt, if◌then◌else◌, Result, ok, err,
}
use mathlib.Core.List.{append_assoc}
use usrp_playground.Channel.Duty.{History}
use usrp_playground.Channel.Burst.{
  Command, flush_rx, receive_to_file, Answer, reply, timeout, Reading, unreadable, measured, Fault,
  channel_busy, timed_out, Session, pure, send, recv, answered, read_power, sense,
  listen_before_talk,
}
use usrp_playground.Channel.Burst.Sockets.{session, IsQuiet, Settled}

abbrev pub Senses : Command → Type 0
Senses c = (c ≡ flush_rx) ⊎ (c ≡ receive_to_file)

-- The last reading before the burst, which is below the threshold.
abbrev pub IsClear : ℕ → List Reading → List Reading → Type 0
IsClear threshold readings rest =
    (earlier : List Reading) × (p : ℕ) × (readings ≡ earlier ++ measured p ∷ rest) × (p < threshold)

-- What is left of the daemons' answers, where each command that was sent took one.
abbrev pub IsLeft : List Answer → ℕ → List Answer → Type 0
IsLeft replies n rest = (used : List Answer) × (replies ≡ used ++ rest) × (length used ≡ n)

abbrev Heard :
    ℕ → List Answer → List Reading → ℕ → History → Session → Result Fault (Unit {0}) → Type 0
Heard threshold replies readings n history s (ok u) =
    (s ≡ session s.answers s.readings s.commands history)
    × IsClear threshold readings s.readings
    × IsLeft replies n s.answers
Heard threshold replies readings n history s (err e) = (e ≡ channel_busy) ⊎ (e ≡ timed_out)

pub record Listened (threshold : ℕ) (replies : List Answer) (readings : List Reading)
    (before : List Command) (history : History) (s : Session) (r : Result Fault (Unit {0}))
    : Type 0 where
  pub kept : s.history ≡ history
  pub sensed :
      (xs : List Command) × (s.commands ≡ xs ++ before)
      × All Senses xs
      × Heard threshold replies readings (length xs) history s r

All-append {ℓ κ} :
    {A : Type ℓ} (P : A → Type κ) (xs ys : List A) → All P xs → All P ys → All P (xs ++ ys)
All-append P [] ys p q = q
All-append P (x ∷ xs) ys p q = (p.0, All-append P xs ys p.1 q)

Heard-append :
    (threshold n : ℕ) (a b : Answer) (replies : List Answer) (x readings : List Reading)
    (history : History) (s : Session) (r : Result Fault (Unit {0}))
    → Heard threshold replies readings n history s r
    → Heard threshold (a ∷ b ∷ replies) (x ++ readings) (n + 2) history s r
Heard-append threshold n a b replies x readings history s (err e) h = h
Heard-append threshold n a b replies x readings history s (ok u)
      (same, (earlier, p, e, below), (used, left, size)) =
    (
      same,
      (x ++ earlier, p, ap (λ rs. x ++ rs) e ∙ sym (append_assoc x earlier _), below),
      (a ∷ b ∷ used, ap (λ t. a ∷ b ∷ t) left, omega (arith, size)),
    )

module _ (threshold : ℕ) (history : History) where
  -- One attempt more before.
  later :
      (a b : Answer) (replies : List Answer) (x : List Reading) (readings : List Reading)
      (before : List Command) (s : Session) (r : Result Fault (Unit {0}))
      → Listened threshold replies readings (receive_to_file ∷ flush_rx ∷ before) history s r
      → Listened threshold (a ∷ b ∷ replies) (x ++ readings) before history s r
  later a b replies x readings before s r heard = record {
    kept = heard.kept;
    sensed =
        let (xs, e, all, ends) = heard.sensed in
        let two : List Command = receive_to_file ∷ flush_rx ∷ [] in
        (
          xs ++ two,
          e ∙ sym (append_assoc xs two before),
          All-append Senses xs two all (inr refl, (inl refl, tt)),
          subst (λ n. Heard threshold (a ∷ b ∷ replies) (x ++ readings) n history s r)
              (sym (length-append xs two))
              (Heard-append threshold (length xs) a b replies x readings history s r ends),
        );
  }

  -- Listening leaves the history as it is, and sends nothing but senses. When it returns, both
  -- sockets are ready, and the last reading taken is below the threshold. Else it raises that the
  -- channel is busy, or that an answer did not come: never is a socket used out of turn.
  pub listen_before_talk_lem :
      (retries : ℕ) (replies : List Answer) (readings : List Reading) (before : List Command)
      → let (s, r) =
          listen_before_talk retries threshold (session replies readings before history) in
        Listened threshold replies readings before history s r
  unfolding listen_before_talk sense send recv answered read_power
  listen_before_talk_lem zero replies readings before = record {
    kept = refl;
    sensed = ([], refl, tt, inl refl);
  }
  listen_before_talk_lem (suc n) [] readings before = record {
    kept = refl;
    sensed = (flush_rx ∷ [], refl, (inl refl, tt), inr refl);
  }
  listen_before_talk_lem (suc n) (timeout ∷ rest) readings before = record {
    kept = refl;
    sensed = (flush_rx ∷ [], refl, (inl refl, tt), inr refl);
  }
  listen_before_talk_lem (suc n) (reply b ∷ []) readings before = record {
    kept = refl;
    sensed = (receive_to_file ∷ flush_rx ∷ [], refl, (inr refl, (inl refl, tt)), inr refl);
  }
  listen_before_talk_lem (suc n) (reply b ∷ timeout ∷ rest) readings before = record {
    kept = refl;
    sensed = (receive_to_file ∷ flush_rx ∷ [], refl, (inr refl, (inl refl, tt)), inr refl);
  }
  listen_before_talk_lem (suc n) (reply b ∷ reply false ∷ rest) readings before =
      later (reply b) (reply false) rest [] readings before _ _
        (listen_before_talk_lem n rest readings (receive_to_file ∷ flush_rx ∷ before))
  listen_before_talk_lem (suc n) (reply b ∷ reply true ∷ rest) [] before =
      later (reply b) (reply true) rest [] [] before _ _
        (listen_before_talk_lem n rest [] (receive_to_file ∷ flush_rx ∷ before))
  listen_before_talk_lem (suc n) (reply b ∷ reply true ∷ rest) (unreadable ∷ readings) before =
      later (reply b) (reply true) rest (unreadable ∷ []) readings before _ _
        (listen_before_talk_lem n rest readings (receive_to_file ∷ flush_rx ∷ before))
  listen_before_talk_lem (suc n) (reply b ∷ reply true ∷ rest) (measured p ∷ readings) before =
      by_power (ltb p threshold) refl (
        later (reply b) (reply true) rest (measured p ∷ []) readings before _ _
          (listen_before_talk_lem n rest readings (receive_to_file ∷ flush_rx ∷ before)))
    where
      by_power :
          (clear : Bool)
          → ltb p threshold ≡ clear
          → (let (s, r) =
                listen_before_talk n threshold
                  (session rest readings (receive_to_file ∷ flush_rx ∷ before) history) in
              Listened threshold
                (reply b ∷ reply true ∷ rest)
                (measured p ∷ readings)
                before
                history
                s
                r)
          → let (s, r) =
              (if clear then pure tt else listen_before_talk n threshold)
                (session rest readings (receive_to_file ∷ flush_rx ∷ before) history) in
            Listened threshold
              (reply b ∷ reply true ∷ rest)
              (measured p ∷ readings)
              before
              history
              s
              r
      by_power true below next = record {
        kept = refl;
        sensed = (
          receive_to_file ∷ flush_rx ∷ [],
          refl,
          (inr refl, (inl refl, tt)),
          (refl, ([], p, refl, ltb→lt p threshold below), (reply b ∷ reply true ∷ [], refl, refl)),
        );
      }
      by_power false below next = next

-- What may come of a test: no permission to send, or a burst after a clear reading.
abbrev pub NotSent : List Command → History → Session → Result Fault (Unit {0}) → Type 0
NotSent before history s r =
    (e : Fault) × (r ≡ err e)
    × ((e ≡ channel_busy) ⊎ (e ≡ timed_out))
    × (s.history ≡ history)
    × ((xs : List Command) × (s.commands ≡ xs ++ before) × All Senses xs)
    × IsQuiet s

abbrev pub ClearBurst :
    ℕ
    → ℕ
    → ℕ
    → Bool
    → List Answer
    → List Reading
    → List Command
    → History
    → Session
    → Result Fault (Unit {0})
    → Type 0
ClearBurst threshold duration now readable replies readings before history s r =
    (left : List Answer) × (rest : List Reading) × (senses : List Command) × All Senses senses
    × IsLeft replies (length senses) left
    × IsClear threshold readings rest
    × Settled duration now readable left (senses ++ before) history s r
    × IsQuiet s
