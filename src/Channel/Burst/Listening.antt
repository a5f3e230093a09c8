-- ===== src/Channel/Burst/Listening.antt =====
-- What `receive_only` does, whatever the RX daemon answers.
use usrp_playground.Prelude.{
  ℕ, ◌≡◌, ◌<◌, refl, ◌∙◌, ◌↔◌, inl, inr, Bool, true, false, List, [], ◌∷◌, ◌++◌, arith, All, ltb,
  lt→ltb, ltb→lt, Result, ok,
}
use usrp_playground.Channel.Duty.{History}
use usrp_playground.Channel.Burst.{
  Command, flush_rx, receive_to_file, Answer, reply, timeout, Reading, Fault, Session, send, recv,
  answered, capture, receive_only, clean_up, and_then, raise_unless, no_samples,
}
use usrp_playground.Channel.Burst.Sockets.{session, IsQuiet, clean_up-keeps}
use usrp_playground.Channel.Burst.Sensing.{Senses}

-- The answers with which a capture is complete.
abbrev pub is_heard : List Answer → Bool
is_heard (reply b ∷ reply true ∷ rest) = true
is_heard _ = false

abbrev Only : List Command → List Command → Type 0
Only before cs = (xs : List Command) × (cs ≡ xs ++ before) × All Senses xs

pub record Passive (succeeds : Type 0) (before : List Command) (history : History) (s : Session)
    (r : Result Fault (Unit {0})) : Type 0 where
  pub kept : s.history ≡ history
  pub passive : Only before s.commands
  pub quiet : IsQuiet s
  pub outcome : (r ≡ ok tt) ↔ succeeds

module _ (readings : List Reading) (before : List Command) (history : History) where
  abbrev Captured : Bool → List Answer → Session × Result Fault (Unit {0}) → Type 0
  Captured readable replies (s, r) =
      (s.history ≡ history)
      × Only before s.commands
      × (r ≡ ok tt → IsQuiet s)
      × ((r ≡ ok tt) ↔ ((is_heard replies ≡ true) × (readable ≡ true)))

  capture-Captured :
      (readable : Bool) (replies : List Answer)
      → Captured readable replies (capture readable (session replies readings before history))
  unfolding capture send recv answered
  capture-Captured readable [] =
      (refl, (flush_rx ∷ [], refl, (inl refl, tt)), λ h. cc, ground arith)
  capture-Captured readable (timeout ∷ rest) =
      (refl, (flush_rx ∷ [], refl, (inl refl, tt)), λ h. cc, ground arith)
  capture-Captured readable (reply b ∷ []) = (
    refl,
    (receive_to_file ∷ flush_rx ∷ [], refl, (inr refl, (inl refl, tt))),
    λ h. cc,
    ground arith,
  )
  capture-Captured readable (reply b ∷ timeout ∷ rest) = (
    refl,
    (receive_to_file ∷ flush_rx ∷ [], refl, (inr refl, (inl refl, tt))),
    λ h. cc,
    ground arith,
  )
  capture-Captured readable (reply b ∷ reply false ∷ rest) = (
    refl,
    (receive_to_file ∷ flush_rx ∷ [], refl, (inr refl, (inl refl, tt))),
    λ h. cc,
    ground arith,
  )
  capture-Captured true (reply b ∷ reply true ∷ rest) = (
    refl,
    (receive_to_file ∷ flush_rx ∷ [], refl, (inr refl, (inl refl, tt))),
    λ h. (refl, refl),
    ground arith,
  )
  capture-Captured false (reply b ∷ reply true ∷ rest) = (
    refl,
    (receive_to_file ∷ flush_rx ∷ [], refl, (inr refl, (inl refl, tt))),
    λ h. cc,
    ground arith,
  )

  start_capture :
      (b readable : Bool) (replies : List Answer)
      → let start = session replies readings before history in
        let (s, r) =
          and_then
            (λ u s.
              clean_up (capture readable (record s { tx_cmd_sent = false; rx_cmd_sent = false })))
            (raise_unless b no_samples start) in
        Passive ((b ≡ true) × (is_heard replies ≡ true) × (readable ≡ true)) before history s r
  start_capture false readable replies = record {
    kept = refl;
    passive = ([], refl, tt);
    quiet = (refl, refl);
    outcome = ground arith;
  }
  start_capture true readable replies =
      let out = capture readable (session replies readings before history) in
      let (kept, (xs, e, senses), ready, outcome) = capture-Captured readable replies in
      let (same, sent, verdict, quiet) = clean_up-keeps out ready in
      record {
        kept = same ∙ kept;
        passive = (xs, sent ∙ e, senses);
        quiet = quiet;
        outcome = ground (arith, outcome, verdict);
      }

  -- Listening never transmits: it sends nothing but the commands of a sense, leaves the history as
  -- it is and both sockets ready. It succeeds exactly if samples are asked for, both commands are
  -- answered, the second with "OK", and the capture can be read.
  pub receive_only_lem :
      (n_samples : ℕ) (readable : Bool) (replies : List Answer)
      → let (s, r) = receive_only n_samples readable (session replies readings before history) in
        Passive ((0 < n_samples) × (is_heard replies ≡ true) × (readable ≡ true)) before history s r
  unfolding receive_only
  receive_only_lem n readable replies =
      let done = start_capture (ltb 0 n) readable replies in
      record {
        kept = done.kept;
        passive = done.passive;
        quiet = done.quiet;
        outcome = ground (arith, done.outcome, ltb→lt 0 n, lt→ltb 0 n);
      }
