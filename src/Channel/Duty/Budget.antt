-- ===== src/Channel/Duty/Budget.antt =====
-- worker/channel.py: the duty cycle holds in every window.
use usrp_playground.Prelude.{
  ℕ, ◌+◌, ◌≤◌, ◌≡◌, refl, true, ◌&&◌, [], ◌∷◌, ◌++◌, ltb, leb, if◌then◌else◌, arith, All, ok,
}
use usrp_playground.Channel.Duty.{
  Duty, History, max_allowed, recent, airtime, Verdict, check_duty_cycle, Log, Run, fresh,
  held_back, transmitted, unrecorded,
}

-- The airtime of the bursts that ended in the window of length `w` up to `at`.
unfoldable pub airtime_in : ℕ → ℕ → History → ℕ
airtime_in w at [] = 0
airtime_in w at ((t, d) ∷ h) = airtime_in w at h + (if leb t at && ltb at (t + w) then d else 0)

-- What is left of the recorded bursts inside the window counts no more than what the channel keeps.
abbrev Covers : ℕ → ℕ → History → History → Type 0
Covers w now kept recorded =
    (at : ℕ) → now ≤ at → airtime_in w at recorded ≤ airtime (recent w at kept)

airtime-recent_mono :
    (w at now : ℕ) (h : History)
    → now ≤ at
    → airtime (recent w at (recent w now h)) ≡ airtime (recent w at h)
unfolding airtime recent
airtime-recent_mono w at now [] le = refl
airtime-recent_mono w at now ((t, d) ∷ h) le = ground (arith, airtime-recent_mono w at now h)

airtime-recent-le : (w at : ℕ) (h : History) → airtime (recent w at h) ≤ airtime h
unfolding airtime recent
airtime-recent-le w at [] = omega arith
airtime-recent-le w at ((t, d) ∷ h) = ground (arith, airtime-recent-le w at h)

airtime-recent-append :
    (w at t d : ℕ) (h : History)
    → airtime (recent w at (h ++ ((t, d) ∷ [])))
      ≡ airtime (recent w at h) + (if ltb at (t + w) then d else 0)
unfolding airtime recent
airtime-recent-append w at t d [] = ground arith
airtime-recent-append w at t d ((s, e) ∷ h) = ground (arith, airtime-recent-append w at t d h)

module _ (c : Duty) (h : History) (now d : ℕ) (v : Verdict) (on : c.enabled ≡ true)
    (e : check_duty_cycle c h now d ≡ ok v) where
  pub verdict-history : v.history ≡ recent c.window now h
  unfolding check_duty_cycle
  verdict-history = ground arith

  pub verdict-allowed : v.allowed ≡ true → d + airtime (recent c.window now h) ≤ max_allowed c
  unfolding check_duty_cycle
  verdict-allowed a = ground arith

-- What holds of a log: the memory covers the recorded bursts from the clock on, nothing was recorded later
-- than the clock, and every window is within the budget.
record IsLegal (c : Duty) (l : Log) : Type 0 where
  covers : Covers c.window l.clock l.history l.recorded
  past : All (λ (b : ℕ × ℕ). b.0 ≤ l.clock) l.recorded
  legal : (at : ℕ) → airtime_in c.window at l.recorded ≤ max_allowed c

past_mono :
    (m n : ℕ) (h : History)
    → m ≤ n
    → All (λ (b : ℕ × ℕ). b.0 ≤ m) h
    → All (λ (b : ℕ × ℕ). b.0 ≤ n) h
past_mono m n [] le a = tt
past_mono m n (b ∷ h) le a = (omega (arith, a.0), past_mono m n h le a.1)

airtime_in_mono :
    (w now at : ℕ) (h : History)
    → now ≤ at
    → All (λ (b : ℕ × ℕ). b.0 ≤ now) h
    → airtime_in w at h ≤ airtime_in w now h
unfolding airtime_in
airtime_in_mono w now at [] le a = omega arith
airtime_in_mono w now at ((t, d) ∷ h) le a = ground (arith, a.0, airtime_in_mono w now at h)

held_back-IsLegal :
    (c : Duty) (l : Log) (now d : ℕ) (v : Verdict)
    → c.enabled ≡ true
    → l.clock ≤ now
    → check_duty_cycle c l.history now d ≡ ok v
    → IsLegal c l
    → IsLegal c (record { history = v.history; recorded = l.recorded; clock = now })
held_back-IsLegal c l now d v on le e i = record {
  covers = λ at h.
      rw (verdict-history c l.history now d v on e)
        (omega (arith, i.covers at (omega arith), airtime-recent_mono c.window at now l.history h));
  past = past_mono l.clock now l.recorded le i.past;
  legal = i.legal;
}

transmitted-IsLegal :
    (c : Duty) (l : Log) (now d end : ℕ) (v : Verdict)
    → c.enabled ≡ true
    → l.clock ≤ now
    → check_duty_cycle c l.history now d ≡ ok v
    → v.allowed ≡ true
    → now ≤ end
    → IsLegal c l
    → IsLegal c (record {
      history = v.history ++ ((end, d) ∷ []);
      recorded = (end, d) ∷ l.recorded;
      clock = end;
    })
unfolding airtime_in
transmitted-IsLegal c l now d end v on le e a after i =
    let kept = verdict-history c l.history now d v on e in
    let room = verdict-allowed c l.history now d v on e a in
    record {
      covers = λ at h. rw kept (
          ground (
            arith,
            i.covers at,
            airtime-recent_mono c.window at now l.history,
            airtime-recent-append c.window at end d (recent c.window now l.history),
          ));
      past = (omega arith, past_mono l.clock end l.recorded (omega arith) i.past);
      legal = λ at. ground (
        arith,
        i.legal at,
        i.covers now,
        airtime_in_mono c.window now at l.recorded,
        past_mono l.clock now l.recorded le i.past,
      );
    }

later-IsLegal :
    (c : Duty) (l : Log) (end : ℕ)
    → l.clock ≤ end
    → IsLegal c l
    → IsLegal c (record { history = l.history; recorded = l.recorded; clock = end })
later-IsLegal c l end le i = record {
  covers = λ at h. i.covers at (omega arith);
  past = past_mono l.clock end l.recorded le i.past;
  legal = i.legal;
}

Run-IsLegal : {c : Duty} {l : Log} → c.enabled ≡ true → Run c l → IsLegal c l
unfolding airtime_in
Run-IsLegal on fresh = record { covers = λ at h. omega arith; past = tt; legal = λ at. omega arith }
Run-IsLegal {c} on (held_back {l} now d v r le e a) =
    held_back-IsLegal c l now d v on le e (Run-IsLegal on r)
Run-IsLegal {c} on (transmitted {l} now d end v r le e a after) =
    transmitted-IsLegal c l now d end v on le e a after (Run-IsLegal on r)
Run-IsLegal {c} on (unrecorded {l} now d end v r le e a after) =
    later-IsLegal c (record { history = v.history; recorded = l.recorded; clock = now }) end after
      (held_back-IsLegal c l now d v on le e (Run-IsLegal on r))

-- With the limit switched on, whatever is asked to be sent, when, and however often the channel makes a
-- signal wait: of the bursts that were entered in the history, those that end within any window of the
-- configured length were on air for no longer than the configured share of it. A burst that is not
-- entered, because its test failed, does not count here.
pub Run-legal :
    (c : Duty) {l : Log} (at : ℕ)
    → c.enabled ≡ true
    → Run c l
    → airtime_in c.window at l.recorded ≤ max_allowed c
Run-legal c at on r = (Run-IsLegal on r).legal at
