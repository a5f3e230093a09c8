-- ===== src/Channel/Duty/Waiting.antt =====
-- worker/channel.py: the wait for the duty cycle ends.
use usrp_playground.Prelude.{
  ℕ, zero, suc, ◌+◌, ◌-◌, ◌*◌, ◌≤◌, ◌<◌, ◌≡◌, refl, ◌⊎◌, inl, inr, ap, ◌∙◌, true, false, [], ◌∷◌,
  Option, some, ltb, arith, All, Result, ok, err, Bool-cases,
}
use usrp_playground.Channel.Duty.{
  Duty, History, TooLong, too_long, max_allowed, recent, airtime, Verdict, check_duty_cycle,
  wait_turn,
}
use usrp_playground.Channel.Duty.Budget.{verdict-history, verdict-allowed}

-- Nothing in the history is later than `base`.
abbrev pub Before : ℕ → History → Type 0
Before base h = All (λ (b : ℕ × ℕ). b.0 ≤ base) h

recent-Before : (base w now : ℕ) (h : History) → Before base h → Before base (recent w now h)
unfolding recent
recent-Before base w now [] b = tt
recent-Before base w now ((t, d) ∷ h) b = ground (arith, recent-Before base w now h)

recent_over : (base w now : ℕ) (h : History) → Before base h → base + w ≤ now → recent w now h ≡ []
unfolding recent
recent_over base w now [] b le = refl
recent_over base w now ((t, d) ∷ h) b le = ground (arith, b.0, recent_over base w now h)

module _ (c : Duty) (on : c.enabled ≡ true) where
  check_total :
      (h : History) (now d : ℕ)
      → d ≤ max_allowed c
      → (v : Verdict) × (check_duty_cycle c h now d ≡ ok v)
        × ((v.allowed ≡ true) ⊎ ((v.allowed ≡ false) × (c.second ≤ v.wait_time)))
  unfolding check_duty_cycle
  check_total h now d le =
      elim (Bool-cases (ltb (max_allowed c) (d + airtime (recent c.window now h)))) [
        | inl e ↦ (
          record {
            allowed = false;
            wait_time = d + airtime (recent c.window now h) - max_allowed c + c.second;
            history = recent c.window now h;
          },
          ground arith,
          inr (refl, omega arith),
        )
        | inr e ↦ (
          record { allowed = true; wait_time = 0; history = recent c.window now h },
          ground arith,
          inl refl,
        )
      ]

  -- How the wait ends well: at a later time, with room for the signal.
  abbrev pub Ends : ℕ → ℕ → Option (Result TooLong (ℕ × History)) → Type 0
  Ends now d r =
      (t : ℕ) × (h : History) × (r ≡ some (ok (t, h))) × (now ≤ t) × (d + airtime h ≤ max_allowed c)

  refused_over :
      (h : History) (base now d : ℕ) (v : Verdict)
      → d ≤ max_allowed c
      → Before base h
      → base + c.window ≤ now
      → check_duty_cycle c h now d ≡ ok v
      → v.allowed ≡ true
  unfolding check_duty_cycle airtime
  refused_over h base now d v le b over e = ground (
    arith,
    recent_over base c.window now h b over,
    ap airtime (recent_over base c.window now h b over),
  )

  module _ (fuel : ℕ) (late : ℕ → ℕ) (h : History) (now d : ℕ) (v : Verdict)
      (e : check_duty_cycle c h now d ≡ ok v) where
    turn_now : v.allowed ≡ true → wait_turn (suc fuel) c late h now d ≡ some (ok (now, v.history))
    unfolding wait_turn
    turn_now a = rw (e, wait_turn) (rw a)

    turn_later :
        v.allowed ≡ false
        → wait_turn (suc fuel) c late h now d
          ≡ wait_turn fuel c late v.history (now + v.wait_time + late now) d
    unfolding wait_turn
    turn_later a = rw (e, wait_turn) (rw a)

  Ends-now :
      (fuel : ℕ) (late : ℕ → ℕ) (h : History) (now d : ℕ) (v : Verdict)
      → check_duty_cycle c h now d ≡ ok v
      → v.allowed ≡ true
      → Ends now d (wait_turn (suc fuel) c late h now d)
  Ends-now fuel late h now d v e a = (
    now,
    v.history,
    turn_now fuel late h now d v e a,
    omega arith,
    rw (verdict-history c h now d v on e) (verdict-allowed c h now d v on e a),
  )

  -- A signal within the budget gets its turn: with nothing in the history later than `base`, one
  -- round for each second up to the end of the window after it is enough. When the wait ends, the
  -- signal and what the history still holds fit into the budget together.
  pub wait_turn_total :
      (fuel : ℕ) (late : ℕ → ℕ) (h : History) (base now d : ℕ)
      → d ≤ max_allowed c
      → Before base h
      → base + c.window ≤ now + fuel * c.second
      → Ends now d (wait_turn (suc fuel) c late h now d)
  wait_turn_total zero late h base now d le b enough =
      let (v, e, _) = check_total h now d le in
      Ends-now zero late h now d v e (refused_over h base now d v le b (omega arith) e)
  wait_turn_total (suc fuel) late h base now d le b enough =
      let (v, e, verdict) = check_total h now d le in
      elim verdict [
        | inl a ↦ Ends-now (suc fuel) late h now d v e a
        | inr (a, waits) ↦
            let later = now + v.wait_time + late now in
            let kept : Before base v.history =
              rw (verdict-history c h now d v on e) (recent-Before base c.window now h b) in
            let (t, h', r, after, fits) =
              wait_turn_total fuel late v.history base later d le kept (omega arith) in
            (t, h', turn_later (suc fuel) late h now d v e a ∙ r, omega arith, fits)
      ]

  -- A signal that is longer than the whole budget is refused at once, instead of waiting for ever.
  pub wait_turn_too_long :
      (fuel : ℕ) (late : ℕ → ℕ) (h : History) (now d : ℕ)
      → max_allowed c < d
      → wait_turn (suc fuel) c late h now d ≡ some (err too_long)
  unfolding wait_turn check_duty_cycle
  wait_turn_too_long fuel late h now d le =
      let refused : check_duty_cycle c h now d ≡ err too_long = ground arith in
      rw (refused, wait_turn)
