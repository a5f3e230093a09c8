-- ===== src/Daemon/Mismatch.antt =====
-- usrp_testbed_library/usrp_common.py, `check_settings_mismatch`, for both kinds of daemon.
pub mod Applied
use usrp_playground.Prelude.{
  ℕ, Bool, true, false, not, List, [], ◌∷◌, ◌++◌, Option, none, some, if◌then◌else◌,
}
use usrp_playground.Prelude.Text.{Text, text_eq}
use usrp_playground.Prelude.Numbers.{value_at, set_at}
use usrp_playground.Daemon.Radio.{Tolerance, fs_atol, fc_atol, g_atol, mismatch_atol, Floats}
use usrp_playground.Daemon.Asked.{Antenna, antenna_for}

module _ (fl : Floats) where
  -- `G_RX`, or `G_TX` with `P_TX_DBM`.
  pub data Gain : Type 0 where
    rx_gain : fl.Float → Gain
    tx_gain : fl.Float → Option fl.Float → Gain

  -- The settings of a channel that are compared.
  pub record Measured : Type 0 where
    pub fs : fl.Float
    pub fc : fl.Float
    pub gain : Gain
    pub antenna : Text

  -- A gain for all channels, or one for each.
  pub data RxGains : Type 0 where
    one_gain : fl.Float → RxGains
    gain_each : List (ℕ × fl.Float) → RxGains

  pub record Target : Type 0 where
    pub fs : fl.Float
    pub fc : fl.Float
    pub g_rx : RxGains
    pub g_tx : List (ℕ × fl.Float)
    pub p_tx_dbm : List (ℕ × fl.Float)
    pub antenna : Antenna

  pub data Difference : Type 0 where
    in_fs in_fc in_g_rx in_g_tx in_p_tx_dbm : fl.Float → fl.Float → Difference
    in_antenna : Text → Option Text → Difference

  unfoldable pub rx_gain_for : RxGains → ℕ → Option fl.Float
  rx_gain_for (one_gain g) ch = some g
  rx_gain_for (gain_each d) ch = value_at ch d

  -- An entry, unless nothing was requested or the two are close.
  unfoldable pub unless_close :
      Tolerance → (fl.Float → fl.Float → Difference) → fl.Float → Option fl.Float → List Difference
  unless_close tol entry x none = []
  unless_close tol entry x (some y) = if fl.is_close tol x y then [] else entry x y ∷ []

  unfoldable pub gain_differences : Target → ℕ → Gain → List Difference
  unfolding unless_close rx_gain_for
  gain_differences t ch (rx_gain g) = unless_close g_atol in_g_rx g (rx_gain_for t.g_rx ch)
  gain_differences t ch (tx_gain g none) = unless_close g_atol in_g_tx g (value_at ch t.g_tx)
  gain_differences t ch (tx_gain g (some p)) =
      unless_close mismatch_atol in_p_tx_dbm p (value_at ch t.p_tx_dbm)

  unfoldable pub antenna_differences : Text → Option Text → List Difference
  antenna_differences a none = in_antenna a none ∷ []
  antenna_differences a (some b) = if text_eq a b then [] else in_antenna a (some b) ∷ []

  unfoldable pub differences : Target → ℕ → Measured → List Difference
  differences t ch s =
      unless_close fs_atol in_fs s.fs (some t.fs)
      ++ (unless_close fc_atol in_fc s.fc (some t.fc)
          ++ (gain_differences t ch s.gain
              ++ antenna_differences s.antenna (antenna_for t.antenna ch)))

  keep_mismatch : ℕ → List Difference → List (ℕ × List Difference) → List (ℕ × List Difference)
  keep_mismatch ch [] rest = rest
  keep_mismatch ch (d ∷ ds) rest = (ch, d ∷ ds) ∷ rest

  unfoldable pub check_settings_mismatch : List (ℕ × Measured) → Target → List (ℕ × List Difference)
  unfolding keep_mismatch
  check_settings_mismatch [] t = []
  check_settings_mismatch ((ch, s) ∷ settings) t =
      keep_mismatch ch (differences t ch s) (check_settings_mismatch settings t)
