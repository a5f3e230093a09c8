-- ===== src/Channel/Duty.antt =====
-- worker/channel.py, `_check_duty_cycle` and the loop of `send_and_receive` that waits for it.
-- Times and durations are whole numbers of one small unit.
pub mod Budget
pub mod Waiting
use usrp_playground.Prelude.{
  ℕ, zero, suc, ◌+◌, ◌-◌, ◌*◌, ◌/◌, ◌≤◌, ◌≡◌, Bool, true, false, not, List, [], ◌∷◌, ◌++◌, Option,
  none, some, ltb, if◌then◌else◌, Result, ok, err,
}

pub record Duty : Type 0 where
  pub enabled : Bool
  pub max_percent : ℕ
  pub window : ℕ
  pub second : ℕ

-- `_tx_history`: when a burst ended, and for how long it was on air.
abbrev pub History : Type 0
History = List (ℕ × ℕ)

pub data TooLong : Type 0 where
  too_long : TooLong

-- `max_allowed = duty_max * duty_window`.
abbrev pub max_allowed : Duty → ℕ
max_allowed c = c.max_percent * c.window / 100

-- `[(t, d) for t, d in self._tx_history if t > cutoff]` with `cutoff = now - duty_window`.
unfoldable pub recent : ℕ → ℕ → History → History
recent window now [] = []
recent window now ((t, d) ∷ h) =
    if ltb now (t + window) then (t, d) ∷ recent window now h else recent window now h

-- `sum(d for _, d in …)`.
unfoldable pub airtime : History → ℕ
airtime [] = 0
airtime ((t, d) ∷ h) = d + airtime h

-- The verdict with the time to wait, and the new `_tx_history`.
pub record Verdict : Type 0 where
  pub allowed : Bool
  pub wait_time : ℕ
  pub history : History

unfoldable pub check_duty_cycle : Duty → History → ℕ → ℕ → Result TooLong Verdict
check_duty_cycle c h now duration =
    if not c.enabled
    then ok (record { allowed = true; wait_time = 0; history = h })
    else if ltb (max_allowed c) duration
    then err too_long
    else let kept = recent c.window now h in
      let total = airtime kept in
      if ltb (max_allowed c) (duration + total)
      then ok (record {
        allowed = false;
        wait_time = duration + total - max_allowed c + c.second;
        history = kept;
      })
      else ok (record { allowed = true; wait_time = 0; history = kept })

-- The loop `while True: … time.sleep(wait_time)`: the time and the history when it is left. `late`
-- is how much longer than asked a sleep takes. `none` is out of fuel.
unfoldable pub wait_turn :
    ℕ → Duty → (ℕ → ℕ) → History → ℕ → ℕ → Option (Result TooLong (ℕ × History))
wait_turn zero c late h now duration = none
wait_turn (suc fuel) c late h now duration = elim (check_duty_cycle c h now duration) [
  | err e ↦ some (err e)
  | ok v ↦
      let again = wait_turn fuel c late v.history (now + v.wait_time + late now) duration in
      if v.allowed then some (ok (now, v.history)) else again
]

-- The channel's memory, beside all the bursts that were ever entered in it, newest first.
pub record Log : Type 0 where
  pub history : History
  pub recorded : History
  pub clock : ℕ

-- Runs under fixed settings: checks at any later time, and after an allowed one a burst that is over
-- some time later, and either enters the history or, where `send_and_receive` raises before that, does
-- not.
pub data Run (c : Duty) : Log → Type 0 where
  fresh : Run c (record { history = []; recorded = []; clock = 0 })
  held_back :
      {l : Log} (now d : ℕ) (v : Verdict)
      → Run c l
      → l.clock ≤ now
      → check_duty_cycle c l.history now d ≡ ok v
      → v.allowed ≡ false
      → Run c (record { history = v.history; recorded = l.recorded; clock = now })
  transmitted :
      {l : Log} (now d end : ℕ) (v : Verdict)
      → Run c l
      → l.clock ≤ now
      → check_duty_cycle c l.history now d ≡ ok v
      → v.allowed ≡ true
      → now ≤ end
      → Run c (record {
        history = v.history ++ ((end, d) ∷ []);
        recorded = (end, d) ∷ l.recorded;
        clock = end;
      })
  unrecorded :
      {l : Log} (now d end : ℕ) (v : Verdict)
      → Run c l
      → l.clock ≤ now
      → check_duty_cycle c l.history now d ≡ ok v
      → v.allowed ≡ true
      → now ≤ end
      → Run c (record { history = v.history; recorded = l.recorded; clock = end })
