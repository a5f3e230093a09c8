-- ===== src/Channel/Burst/Sockets.antt =====
-- What a burst leaves behind, whatever the daemons answer.
use usrp_playground.Prelude.{
  ℕ, ◌≡◌, ◌≢◌, refl, subst, sym, ◌∙◌, ◌⊎◌, inl, inr, Bool, true, false, List, [], ◌∷◌, ◌++◌, arith,
  Result, ok, err,
}
use usrp_playground.Channel.Duty.{History}
use usrp_playground.Channel.Burst.{
  Side, tx_req, rx_req, Command, load_signal, flush_rx, receive_to_file, transmit_burst, Answer,
  reply, timeout, Reading, Fault, illegal_state, bad_capture, Session, send, recv, answered,
  reset_sockets, drain, clean_up, burst,
}

abbrev pub IsQuiet : Session → Type 0
IsQuiet s = (s.tx_due ≡ false) × (s.rx_due ≡ false)

-- The answers with which the burst is commanded, with which the TX daemon reports it as sent, and
-- with which the RX daemon reports its capture too.
abbrev pub is_commanded : List Answer → Bool
is_commanded (reply true ∷ reply b ∷ rest) = true
is_commanded _ = false

abbrev pub is_transmitted : List Answer → Bool
is_transmitted (reply true ∷ reply b ∷ reply true ∷ rest) = true
is_transmitted _ = false

abbrev pub is_captured : List Answer → Bool
is_captured (reply true ∷ reply b ∷ reply true ∷ reply true ∷ rest) = true
is_captured _ = false

abbrev pub four_commands : List Command → List Command
four_commands before = transmit_burst ∷ receive_to_file ∷ flush_rx ∷ load_signal ∷ before

abbrev pub session : List Answer → List Reading → List Command → History → Session
session replies readings commands history = record {
  tx_due = false;
  rx_due = false;
  tx_cmd_sent = false;
  rx_cmd_sent = false;
  answers = replies;
  readings = readings;
  commands = commands;
  history = history;
}

-- Sent before the burst is commanded.
abbrev pub IsPrelude : List Command → List Command → Type 0
IsPrelude before cs = (cs ≡ load_signal ∷ before) ⊎ (cs ≡ flush_rx ∷ load_signal ∷ before)

abbrev pub Sent : Bool → List Command → List Command → Type 0
Sent true before cs = cs ≡ four_commands before
Sent false before cs = IsPrelude before cs

abbrev pub Recorded : Bool → ℕ → ℕ → History → History → Type 0
Recorded true duration now before h = h ≡ before ++ ((now, duration) ∷ [])
Recorded false duration now before h = h ≡ before

abbrev Conclusion : Bool → Bool → Result Fault (Unit {0}) → Type 0
Conclusion true true r = r ≡ ok tt
Conclusion true false r = r ≡ err bad_capture
Conclusion false readable r = (e : Fault) × (r ≡ err e) × (e ≢ illegal_state) × (e ≢ bad_capture)

recv-keeps :
    (side : Side) (s : Session)
    → ((recv side s).0.history ≡ s.history) × ((recv side s).0.commands ≡ s.commands)
unfolding recv answered
recv-keeps tx_req s = ground arith
recv-keeps rx_req s = ground arith

drain-keeps :
    (side : Side) (b : Bool) (s : Session)
    → ((drain side b s).history ≡ s.history) × ((drain side b s).commands ≡ s.commands)
unfolding drain
drain-keeps side true s = recv-keeps side s
drain-keeps side false s = (refl, refl)

-- Draining and resetting change nothing but the sockets, and leave those ready.
pub clean_up-keeps :
    (out : Session × Result Fault (Unit {0}))
    → (out.1 ≡ ok tt → IsQuiet out.0)
    → ((clean_up out).0.history ≡ out.0.history)
      × ((clean_up out).0.commands ≡ out.0.commands)
      × ((clean_up out).1 ≡ out.1)
      × IsQuiet (clean_up out).0
unfolding clean_up reset_sockets
clean_up-keeps (s, ok u) quiet = (refl, refl, refl, quiet refl)
clean_up-keeps (s, err e) quiet =
    let (same, sent) = drain-keeps tx_req s.tx_cmd_sent s in
    let (again, still) = drain-keeps rx_req s.rx_cmd_sent (drain tx_req s.tx_cmd_sent s) in
    (again ∙ same, still ∙ sent, refl, (refl, refl))

module _ (duration now : ℕ) where
  pub record Settled (readable : Bool) (replies : List Answer) (commands : List Command)
      (history : History) (s : Session) (r : Result Fault (Unit {0})) : Type 0 where
    pub sent : Sent (is_commanded replies) commands s.commands
    pub recorded : Recorded (is_captured replies) duration now history s.history
    pub verdict : Conclusion (is_captured replies) readable r

  module _ (readings : List Reading) (commands : List Command) (history : History) where
    burst-Settled :
        (readable : Bool) (replies : List Answer)
        → let (s, r) = burst duration now readable (session replies readings commands history) in
          Settled readable replies commands history s r × (r ≡ ok tt → IsQuiet s)
    unfolding burst send recv answered
    burst-Settled readable [] = (
      record { sent = inl refl; recorded = refl; verdict = (_, refl, λ e. cc, λ e. cc) },
      λ h. cc,
    )
    burst-Settled readable (timeout ∷ rest) = (
      record { sent = inl refl; recorded = refl; verdict = (_, refl, λ e. cc, λ e. cc) },
      λ h. cc,
    )
    burst-Settled readable (reply false ∷ rest) = (
      record { sent = inl refl; recorded = refl; verdict = (_, refl, λ e. cc, λ e. cc) },
      λ h. cc,
    )
    burst-Settled readable (reply true ∷ []) = (
      record { sent = inr refl; recorded = refl; verdict = (_, refl, λ e. cc, λ e. cc) },
      λ h. cc,
    )
    burst-Settled readable (reply true ∷ timeout ∷ rest) = (
      record { sent = inr refl; recorded = refl; verdict = (_, refl, λ e. cc, λ e. cc) },
      λ h. cc,
    )
    burst-Settled readable (reply true ∷ reply b ∷ []) =
        (record { sent = refl; recorded = refl; verdict = (_, refl, λ e. cc, λ e. cc) }, λ h. cc)
    burst-Settled readable (reply true ∷ reply b ∷ timeout ∷ rest) =
        (record { sent = refl; recorded = refl; verdict = (_, refl, λ e. cc, λ e. cc) }, λ h. cc)
    burst-Settled readable (reply true ∷ reply b ∷ reply false ∷ rest) =
        (record { sent = refl; recorded = refl; verdict = (_, refl, λ e. cc, λ e. cc) }, λ h. cc)
    burst-Settled readable (reply true ∷ reply b ∷ reply true ∷ []) =
        (record { sent = refl; recorded = refl; verdict = (_, refl, λ e. cc, λ e. cc) }, λ h. cc)
    burst-Settled readable (reply true ∷ reply b ∷ reply true ∷ timeout ∷ rest) =
        (record { sent = refl; recorded = refl; verdict = (_, refl, λ e. cc, λ e. cc) }, λ h. cc)
    burst-Settled readable (reply true ∷ reply b ∷ reply true ∷ reply false ∷ rest) =
        (record { sent = refl; recorded = refl; verdict = (_, refl, λ e. cc, λ e. cc) }, λ h. cc)
    burst-Settled true (reply true ∷ reply b ∷ reply true ∷ reply true ∷ rest) =
        (record { sent = refl; recorded = refl; verdict = refl }, λ h. (refl, refl))
    burst-Settled false (reply true ∷ reply b ∷ reply true ∷ reply true ∷ rest) =
        (record { sent = refl; recorded = refl; verdict = refl }, λ h. cc)

    clean_up-Settled :
        (readable : Bool) (replies : List Answer) (out : Session × Result Fault (Unit {0}))
        → Settled readable replies commands history out.0 out.1
        → (out.1 ≡ ok tt → IsQuiet out.0)
        → Settled readable replies commands history (clean_up out).0 (clean_up out).1
          × IsQuiet (clean_up out).0
    clean_up-Settled readable replies out settled quiet =
        let (recorded, sent, verdict, ready) = clean_up-keeps out quiet in
        (
          record {
            sent = subst (Sent (is_commanded replies) commands) (sym sent) settled.sent;
            recorded =
                subst (Recorded (is_captured replies) duration now history) (sym recorded)
                  settled.recorded;
            verdict =
                subst (Conclusion (is_captured replies) readable) (sym verdict) settled.verdict;
          },
          ready,
        )

    -- A burst in full.
    pub burst_total :
        (readable : Bool) (replies : List Answer)
        → let (s, r) =
            clean_up (burst duration now readable (session replies readings commands history)) in
          Settled readable replies commands history s r × IsQuiet s
    burst_total readable replies =
        let (settled, quiet) = burst-Settled readable replies in
        clean_up-Settled readable replies
          (burst duration now readable (session replies readings commands history)) settled quiet

    transmitted_commanded :
        (replies : List Answer) → is_transmitted replies ≡ true → is_commanded replies ≡ true
    transmitted_commanded (reply true ∷ reply b ∷ reply true ∷ rest) h = refl
    transmitted_commanded [] h = cc
    transmitted_commanded (timeout ∷ rest) h = cc
    transmitted_commanded (reply false ∷ rest) h = cc
    transmitted_commanded (reply true ∷ []) h = cc
    transmitted_commanded (reply true ∷ timeout ∷ rest) h = cc
    transmitted_commanded (reply true ∷ reply b ∷ []) h = cc
    transmitted_commanded (reply true ∷ reply b ∷ timeout ∷ rest) h = cc
    transmitted_commanded (reply true ∷ reply b ∷ reply false ∷ rest) h = cc

    not_ok :
        (captured readable : Bool) {r : Result Fault (Unit {0})}
        → captured ≡ false
        → Conclusion captured readable r
        → r ≢ ok tt
    not_ok true readable h v e = cc
    not_ok false readable h (f, same, legal, read) e = cc

    -- A burst that the TX daemon reports as sent, while the answer to its capture is no "OK" or does
    -- not come, is not entered in the history, by which the duty cycle is kept.
    pub burst_unrecorded :
        (readable : Bool) (replies : List Answer)
        → is_transmitted replies ≡ true
        → is_captured replies ≡ false
        → let (s, r) =
            clean_up (burst duration now readable (session replies readings commands history)) in
          (s.commands ≡ four_commands commands) × (s.history ≡ history) × (r ≢ ok tt)
    burst_unrecorded readable replies sent lost =
        let (settled, quiet) = burst_total readable replies in
        let s =
          (clean_up (burst duration now readable (session replies readings commands history))).0 in
        (
          subst (λ b. Sent b commands s.commands) (transmitted_commanded replies sent) settled.sent,
          subst (λ b. Recorded b duration now history s.history) lost settled.recorded,
          not_ok (is_captured replies) readable lost settled.verdict,
        )
