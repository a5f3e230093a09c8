-- ===== src/Daemon/Mismatch/Applied.antt =====
-- When there is no mismatch.
use usrp_playground.Prelude.{
  ℕ, ◌≡◌, ◌↔◌, refl, true, List, [], ◌∷◌, ◌++◌, Option, none, some, arith, All,
}
use usrp_playground.Prelude.Text.{Text, text_eq_iff}
use usrp_playground.Prelude.Numbers.{value_at}
use usrp_playground.Daemon.Radio.{Tolerance, fs_atol, fc_atol, g_atol, mismatch_atol, Floats}
use usrp_playground.Daemon.Asked.{antenna_for}
use usrp_playground.Daemon.Mismatch.{
  Gain, rx_gain, tx_gain, Measured, Target, Difference, in_fs, in_fc, in_g_rx, in_g_tx, in_p_tx_dbm,
  rx_gain_for, unless_close, gain_differences, antenna_differences, differences, keep_mismatch,
  check_settings_mismatch,
}

module _ (fl : Floats) where
  -- Close to what was requested, if anything was.
  abbrev pub IsNear : Tolerance → fl.Float → Option fl.Float → Type 0
  IsNear tol x none = Unit
  IsNear tol x (some y) = fl.is_close tol x y ≡ true

  -- Where the radio reports a power, that is compared and the gain is not.
  abbrev pub IsGain : Target fl → ℕ → Gain fl → Type 0
  IsGain t ch (rx_gain g) = IsNear g_atol g (rx_gain_for fl t.g_rx ch)
  IsGain t ch (tx_gain g none) = IsNear g_atol g (value_at ch t.g_tx)
  IsGain t ch (tx_gain g (some p)) = IsNear mismatch_atol p (value_at ch t.p_tx_dbm)

  abbrev pub IsApplied : Target fl → ℕ × Measured fl → Type 0
  IsApplied t (ch, s) =
      (fl.is_close fs_atol s.fs t.fs ≡ true)
      × (fl.is_close fc_atol s.fc t.fc ≡ true)
      × IsGain t ch s.gain
      × (antenna_for t.antenna ch ≡ some s.antenna)

  unless_close_iff :
      (tol : Tolerance) (entry : fl.Float → fl.Float → Difference fl) (x : fl.Float)
      (o : Option fl.Float)
      → (unless_close fl tol entry x o ≡ []) ↔ IsNear tol x o
  unfolding unless_close
  unless_close_iff tol entry x none = (λ h. tt, λ h. refl)
  unless_close_iff tol entry x (some y) = (λ h. ground (arith, h), λ h. ground (arith, h))

  gain_differences_iff :
      (t : Target fl) (ch : ℕ) (g : Gain fl) → (gain_differences fl t ch g ≡ []) ↔ IsGain t ch g
  unfolding gain_differences
  gain_differences_iff t ch (rx_gain g) =
      unless_close_iff g_atol in_g_rx g (rx_gain_for fl t.g_rx ch)
  gain_differences_iff t ch (tx_gain g none) =
      unless_close_iff g_atol in_g_tx g (value_at ch t.g_tx)
  gain_differences_iff t ch (tx_gain g (some p)) =
      unless_close_iff mismatch_atol in_p_tx_dbm p (value_at ch t.p_tx_dbm)

  antenna_differences_iff :
      (a : Text) (o : Option Text) → (antenna_differences fl a o ≡ []) ↔ (o ≡ some a)
  unfolding antenna_differences
  antenna_differences_iff a none =
      (λ h. absurd (ground (arith, h)), λ h. absurd (ground (arith, h)))
  antenna_differences_iff a (some b) =
      (λ h. ground (arith, h, text_eq_iff a b), λ h. ground (arith, h, text_eq_iff a b))

  append_nil_iff : (ds es : List (Difference fl)) → (ds ++ es ≡ []) ↔ ((ds ≡ []) × (es ≡ []))
  append_nil_iff [] es = (λ h. (refl, h), λ h. h.1)
  append_nil_iff (d ∷ ds) es = (λ h. absurd (ground (arith, h)), λ h. absurd (ground (arith, h.0)))

  differences_iff :
      (t : Target fl) (ch : ℕ) (s : Measured fl)
      → (differences fl t ch s ≡ []) ↔ IsApplied t (ch, s)
  unfolding differences
  differences_iff t ch s =
      let is_fs = unless_close_iff fs_atol in_fs s.fs (some t.fs) in
      let is_fc = unless_close_iff fc_atol in_fc s.fc (some t.fc) in
      let is_gain = gain_differences_iff t ch s.gain in
      let is_antenna = antenna_differences_iff s.antenna (antenna_for t.antenna ch) in
      (
        λ h.
            let (no_fs, rest) = (append_nil_iff _ _).0 h in
            let (no_fc, rest') = (append_nil_iff _ _).0 rest in
            let (no_gain, no_antenna) = (append_nil_iff _ _).0 rest' in
            (is_fs.0 no_fs, is_fc.0 no_fc, is_gain.0 no_gain, is_antenna.0 no_antenna),
        λ (a, b, c, d). (append_nil_iff _ _).1 (
          is_fs.1 a,
          (append_nil_iff _ _).1 (is_fc.1 b, (append_nil_iff _ _).1 (is_gain.1 c, is_antenna.1 d)),
        ),
      )

  keep_mismatch_iff :
      (ch : ℕ) (ds : List (Difference fl)) (rest : List (ℕ × List (Difference fl)))
      → (keep_mismatch fl ch ds rest ≡ []) ↔ ((ds ≡ []) × (rest ≡ []))
  unfolding keep_mismatch
  keep_mismatch_iff ch [] rest = (λ h. (refl, h), λ h. h.1)
  keep_mismatch_iff ch (d ∷ ds) rest =
      (λ h. absurd (ground (arith, h)), λ h. absurd (ground (arith, h.0)))

  -- No mismatch is reported exactly where every channel has the requested rate, frequency and antenna and
  -- the requested power, or gain where the radio reports no power, each up to its tolerance.
  pub check_settings_mismatch_iff :
      (settings : List (ℕ × Measured fl)) (t : Target fl)
      → (check_settings_mismatch fl settings t ≡ []) ↔ All (IsApplied t) settings
  unfolding check_settings_mismatch
  check_settings_mismatch_iff [] t = (λ h. tt, λ h. refl)
  check_settings_mismatch_iff ((ch, s) ∷ settings) t =
      let here = differences_iff t ch s in
      let there = check_settings_mismatch_iff settings t in
      let kept =
        keep_mismatch_iff ch (differences fl t ch s) (check_settings_mismatch fl settings t) in
      (λ h. (here.0 (kept.0 h).0, there.0 (kept.0 h).1), λ h. kept.1 (here.1 h.0, there.1 h.1))
