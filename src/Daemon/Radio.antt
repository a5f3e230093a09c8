-- ===== src/Daemon/Radio.antt =====
-- The radio under a daemon, UHD's `MultiUSRP`, and the checks of usrp_testbed_library/usrp_common.py on
-- what is asked of it. Floats are a parameter, with `np.isclose` at each tolerance that the code names.
use usrp_playground.Prelude.{
  ℕ, Bool, false, not, ◌&&◌, ◌||◌, List, [], ◌∷◌, Option, none, some, leb, if◌then◌else◌, ◌-◌,
  Result, ok, err, ◌>>◌, raise_if,
}
use usrp_playground.Prelude.Text.{Text, codes, has, contains}
use usrp_playground.Daemon.Signal.{Problem}

-- numpy's own tolerance, those of frequencies, rates and gains, those of the power reference when it is
-- set and when it is checked, and that of the bandwidth.
pub data Tolerance : Type 0 where
  by_default fs_atol fc_atol g_atol power_atol mismatch_atol bw_atol : Tolerance

pub record Floats : Type 1 where
  pub Float : Type 0
  pub is_close : Tolerance → Float → Float → Bool
  pub is_le : Float → Float → Bool

-- `none` is an exception, which leaves the radio as it was. Getters return.
pub record Radio (fl : Floats) : Type 1 where
  pub Hardware : Type 0
  pub get_tx_num_channels : Hardware → ℕ
  -- The rates and the gains of the ranges, as `np.arange` lists them.
  pub available_fs : Hardware → List fl.Float
  pub available_gains : ℕ → Hardware → List fl.Float
  pub fc_start : ℕ → Hardware → fl.Float
  pub fc_stop : ℕ → Hardware → fl.Float
  pub get_tx_antennas : ℕ → Hardware → List Text
  pub get_tx_rate : ℕ → Hardware → fl.Float
  pub set_tx_rate : fl.Float → Hardware → Option Hardware
  pub get_tx_freq : ℕ → Hardware → fl.Float
  pub set_tx_freq : fl.Float → ℕ → Hardware → Option Hardware
  pub get_tx_gain : ℕ → Hardware → fl.Float
  pub set_tx_gain : fl.Float → ℕ → Hardware → Option Hardware
  pub get_tx_power_reference : ℕ → Hardware → Option fl.Float
  pub set_tx_power_reference : fl.Float → ℕ → Hardware → Option Hardware
  pub get_tx_antenna : ℕ → Hardware → Text
  pub set_tx_antenna : Text → ℕ → Hardware → Option Hardware
  pub get_tx_bandwidth : ℕ → Hardware → Option fl.Float
  pub set_tx_bandwidth : fl.Float → ℕ → Hardware → Option Hardware
  -- The streamer's `get_max_num_samps`.
  pub get_tx_stream : List ℕ → Hardware → Option ℕ

-- The exceptions of `configure_usrp`.
pub data Refusal : Type 0 where
  none_requested invalid_channels overlapping_channels missing_gains : Refusal
  bad_rate bad_frequency bad_gain bad_antenna : Refusal
  radio_failed : Refusal
  not_assembled : Problem → Refusal
  no_streamer : Refusal

-- `s.upper()` on ASCII text.
unfoldable pub upper : Text → Text
upper [] = []
upper (c ∷ s) = (if leb 97 c && leb c 122 then c - 32 else c) ∷ upper s

unfoldable pub valid_antennas : List Text → List Text
unfolding upper contains
valid_antennas [] = []
valid_antennas (a ∷ as') =
    if contains (codes "TX") (upper a) then a ∷ valid_antennas as' else valid_antennas as'

module _ (fl : Floats) where
  unfoldable pub any_close : fl.Float → List fl.Float → Bool
  any_close x [] = false
  any_close x (y ∷ ys) = fl.is_close by_default x y || any_close x ys

  module _ (usrp : Radio fl) (h : usrp.Hardware) where
    unfoldable pub validate_sampling_rate : fl.Float → Result Refusal (Unit {0})
    unfolding any_close
    validate_sampling_rate fs = raise_if (not (any_close fs (usrp.available_fs h))) bad_rate

    unfoldable pub validate_carrier_frequency : fl.Float → ℕ → Result Refusal (Unit {0})
    validate_carrier_frequency fc ch =
        raise_if (not (fl.is_le (usrp.fc_start ch h) fc && fl.is_le fc (usrp.fc_stop ch h)))
          bad_frequency

    unfoldable pub validate_gain : fl.Float → ℕ → Result Refusal (Unit {0})
    unfolding any_close
    validate_gain gain ch = raise_if (not (any_close gain (usrp.available_gains ch h))) bad_gain

    -- `None` is no antenna.
    unfoldable pub validate_antenna : Option Text → ℕ → Result Refusal Text
    unfolding valid_antennas has
    validate_antenna none ch = err bad_antenna
    validate_antenna (some a) ch = do
      raise_if (not (has a (valid_antennas (usrp.get_tx_antennas ch h)))) bad_antenna
      ok a
