-- ===== src/Daemon/Tuning/Kept.antt =====
-- What the loop over the channels leaves: the record of what was set.
use usrp_playground.Prelude.{
  ℕ, ◌≡◌, refl, sym, subst, ap, ◌∙◌, true, false, List, [], ◌∷◌, Option, none, some, arith, All, ok,
  >>=-eq-ok, Option-cases, inl, inr,
}
use usrp_playground.Prelude.Text.{text_eq_iff}
use usrp_playground.Prelude.Numbers.{value_at, set_at, value_at-set_at, set_at-same}
use usrp_playground.Daemon.Radio.{Tolerance, fc_atol, g_atol, power_atol, bw_atol, Floats, Radio}
use usrp_playground.Daemon.Asked.{Request, Wanted, validate_channel, validate_channels}
use usrp_playground.Daemon.Tuning.{
  Known, Settings, has_changed, known_entry, tune_freq, read_power, tune_power, tune_gain,
  tune_antenna, read_bw, tune_bw, tune_channel, tune_channels,
}

module _ (fl : Floats) (usrp : Radio fl) where
  -- A round that ends the loop, and one that does not.
  module _ (w : Wanted fl) (ws : List (Wanted fl)) (h : usrp.Hardware) (known : List (ℕ × Known fl))
      (actual : List (ℕ × Settings fl)) where
    tune_channels-failed :
        (tune_channel fl usrp w (value_at w.channel known) h).1 ≡ none
        → tune_channels fl usrp (w ∷ ws) h known actual
          ≡ ((tune_channel fl usrp w (value_at w.channel known) h).0, known, none)
    unfolding tune_channels
    tune_channels-failed q = ground (arith, q)

    tune_channels-tuned :
        (settings : Settings fl)
        → (tune_channel fl usrp w (value_at w.channel known) h).1 ≡ some settings
        → tune_channels fl usrp (w ∷ ws) h known actual
          ≡ tune_channels fl usrp ws
              (tune_channel fl usrp w (value_at w.channel known) h).0
              (set_at w.channel (known_entry fl w) known)
              (set_at w.channel settings actual)
    unfolding tune_channels
    tune_channels-tuned settings q = ground (arith, q)

  module _ (is_close-refl : (tol : Tolerance) (x : fl.Float) → fl.is_close tol x x ≡ true) where
    pub has_changed-same : (tol : Tolerance) (x : fl.Float) → has_changed fl tol (some x) x ≡ false
    unfolding has_changed
    has_changed-same tol x = rw (is_close-refl tol x)

    tune_freq-known :
        (w : Wanted fl) (h : usrp.Hardware)
        → tune_freq fl usrp w (some (known_entry fl w)) h ≡ some h
    unfolding tune_freq known_entry
    tune_freq-known w h = rw (is_close-refl fc_atol w.fc)

    tune_gain-known :
        (w : Wanted fl) (p : Option fl.Float) (h : usrp.Hardware)
        → tune_gain fl usrp w (some (known_entry fl w)) p h ≡ some h
    unfolding tune_gain known_entry
    tune_gain-known w none h = rw (is_close-refl g_atol w.gain)
    tune_gain-known w (some p) h = refl

    tune_antenna-known :
        (w : Wanted fl) (h : usrp.Hardware)
        → tune_antenna fl usrp w (some (known_entry fl w)) h ≡ some h
    unfolding tune_antenna known_entry
    tune_antenna-known w h = ground (arith, text_eq_iff w.antenna w.antenna)

    tune_power-known :
        (w : Wanted fl) (h : usrp.Hardware)
        → (tune_power fl usrp w (some (known_entry fl w)) h).0 ≡ h
    unfolding tune_power known_entry read_power
    tune_power-known w h = elim (Option-cases w.power) [
      | inl e ↦ ground (arith, e)
      | inr (p, e) ↦ ground (arith, e, is_close-refl power_atol p)
    ]

    tune_bw-known :
        (w : Wanted fl) (h : usrp.Hardware) → (tune_bw fl usrp w (some (known_entry fl w)) h).0 ≡ h
    unfolding tune_bw known_entry read_bw
    tune_bw-known w h = elim (Option-cases w.bw) [
      | inl e ↦ ground (arith, e)
      | inr (b, e) ↦ ground (arith, e, is_close-refl bw_atol b)
    ]

    -- What is set already is not set again, so that no setter can raise.
    tune_channel-known :
        (w : Wanted fl) (h : usrp.Hardware)
        → (settings : Settings fl) × (tune_channel fl usrp w (some (known_entry fl w)) h
            ≡ (h, some settings))
    unfolding tune_channel
    tune_channel-known w h =
        let power = (tune_power fl usrp w (some (known_entry fl w)) h).1 in
        let bw = (tune_bw fl usrp w (some (known_entry fl w)) h).1 in
        (
          record {
            role = w.role;
            actual_fs = usrp.get_tx_rate w.channel h;
            actual_fc = usrp.get_tx_freq w.channel h;
            actual_gain = usrp.get_tx_gain w.channel h;
            actual_power = power;
            actual_bw = bw;
            actual_antenna = usrp.get_tx_antenna w.channel h;
          },
          ground (
            arith,
            tune_freq-known w h,
            tune_power-known w h,
            tune_gain-known w power h,
            tune_antenna-known w h,
            tune_bw-known w h,
          ),
        )

    pub tune_channels-known :
        (ws : List (Wanted fl)) (h : usrp.Hardware) (known : List (ℕ × Known fl))
        (actual : List (ℕ × Settings fl))
        → All (λ (w : Wanted fl). value_at w.channel known ≡ some (known_entry fl w)) ws
        → (again : List (ℕ × Settings fl)) × (tune_channels fl usrp ws h known actual
            ≡ (h, known, some again))
    unfolding tune_channels
    tune_channels-known [] h known actual all = (actual, refl)
    tune_channels-known (w ∷ ws) h known actual all =
        let (settings, same) = tune_channel-known w h in
        let (again, rest) =
          tune_channels-known ws h known (set_at w.channel settings actual) all.1 in
        let tuned : tune_channel fl usrp w (value_at w.channel known) h ≡ (h, some settings) =
          rw all.0 same in
        let kept = set_at-same w.channel (known_entry fl w) known all.0 in
        (
          again,
          tune_channels-tuned w ws h known actual settings (ap (λ x. x.1) tuned)
              ∙ rw (tuned, kept) rest,
        )

  -- What is asked of a channel is determined by the request.
  module _ (h0 : usrp.Hardware) (r : Request fl) where
    abbrev pub IsAsked : Wanted fl → Type 0
    IsAsked w = validate_channel fl usrp h0 r w.channel ≡ ok w

    IsAsked-same : (w v : Wanted fl) → IsAsked w → IsAsked v → w.channel ≡ v.channel → w ≡ v
    IsAsked-same w v a b e = ground (arith, a, b, e)

    tune_channels-keeps :
        (ws : List (Wanted fl)) (h : usrp.Hardware) (known : List (ℕ × Known fl))
        (actual : List (ℕ × Settings fl)) (v : Wanted fl)
        → All IsAsked ws
        → IsAsked v
        → value_at v.channel known ≡ some (known_entry fl v)
        → value_at v.channel (tune_channels fl usrp ws h known actual).1 ≡ some (known_entry fl v)
    unfolding tune_channels
    tune_channels-keeps [] h known actual v all b e = e
    tune_channels-keeps (w ∷ ws) h known actual v all b e =
        let step = tune_channel fl usrp w (value_at w.channel known) h in
        elim (Option-cases step.1) [
          | inl failed ↦ rw (tune_channels-failed w ws h known actual failed) e
          | inr (settings, q) ↦ rw (tune_channels-tuned w ws h known actual settings q) (
              tune_channels-keeps ws step.0 (set_at w.channel (known_entry fl w) known)
                (set_at w.channel settings actual) v all.1 b
                (ground (
                  arith,
                  e,
                  value_at-set_at v.channel w.channel (known_entry fl w) known,
                  IsAsked-same w v all.0 b,
                )))
        ]

    -- After a loop that came to its end every channel is recorded as it was asked.
    pub tune_channels-entries :
        (ws : List (Wanted fl)) (h : usrp.Hardware) (known : List (ℕ × Known fl))
        (actual out : List (ℕ × Settings fl))
        → All IsAsked ws
        → (tune_channels fl usrp ws h known actual).2 ≡ some out
        → All
            (λ (w : Wanted fl).
              value_at w.channel (tune_channels fl usrp ws h known actual).1
              ≡ some (known_entry fl w))
            ws
    unfolding tune_channels
    tune_channels-entries [] h known actual out all done = tt
    tune_channels-entries (w ∷ ws) h known actual out all done =
        let step = tune_channel fl usrp w (value_at w.channel known) h in
        elim (Option-cases step.1) [
          | inl failed ↦
              absurd (ground (arith, done, tune_channels-failed w ws h known actual failed))
          | inr (settings, q) ↦
              let kept = set_at w.channel (known_entry fl w) known in
              let next = set_at w.channel settings actual in
              let entry : value_at w.channel kept ≡ some (known_entry fl w) =
                ground (arith, value_at-set_at w.channel w.channel (known_entry fl w) known) in
              subst
                (λ (x : usrp.Hardware × List (ℕ × Known fl) × Option (List (ℕ × Settings fl))).
                  All (λ (w : Wanted fl). value_at w.channel x.1 ≡ some (known_entry fl w))
                    (w ∷ ws))
                (sym (tune_channels-tuned w ws h known actual settings q))
                (
                  tune_channels-keeps ws step.0 kept next w all.1 all.0 entry,
                  tune_channels-entries ws step.0 kept next out all.1
                      (ground (arith, done, tune_channels-tuned w ws h known actual settings q)),
                )
        ]

    validate_channel-channel :
        (ch : ℕ) (w : Wanted fl) → validate_channel fl usrp h0 r ch ≡ ok w → w.channel ≡ ch
    unfolding validate_channel
    validate_channel-channel ch w h = ground (arith, h)

    pub validate_channels-IsAsked :
        (cs : List ℕ) (ws : List (Wanted fl))
        → validate_channels fl usrp h0 r cs ≡ ok ws
        → All IsAsked ws
    unfolding validate_channels
    validate_channels-IsAsked [] ws h =
        let all : [] ≡ ws = ground (arith, h) in subst (All IsAsked) all tt
    validate_channels-IsAsked (c ∷ cs) ws h =
        let (w, w_lem, rest) = >>=-eq-ok (validate_channel fl usrp h0 r c) _ h in
        let (ws', ws_lem, last) = >>=-eq-ok (validate_channels fl usrp h0 r cs) _ rest in
        let w_channel = validate_channel-channel c w w_lem in
        let each = validate_channels-IsAsked cs ws' ws_lem in
        let all : w ∷ ws' ≡ ws = ground (arith, last) in
        subst (All IsAsked) all
          (subst (λ k. validate_channel fl usrp h0 r k ≡ ok w) (sym w_channel) w_lem, each)
