-- ===== src/Daemon/Asked.antt =====
-- usrp_testbed_library/tx_daemon.py, `configure_usrp`: what is asked, and the checks before anything changes.
use usrp_playground.Prelude.{
  ℕ, Bool, true, false, not, ◌&&◌, ◌||◌, List, [], ◌∷◌, ◌++◌, Option, none, some, length, leb, ltb,
  ◌==◌, if◌then◌else◌, Result, ok, err, ◌>>=◌, ◌>>◌, raise_if,
}
use usrp_playground.Prelude.Text.{Text}
use usrp_playground.Prelude.Numbers.{is_member, value_at}
use usrp_playground.Daemon.Radio.{
  Floats, Radio, Refusal, none_requested, invalid_channels, overlapping_channels, missing_gains,
  validate_sampling_rate, validate_carrier_frequency, validate_gain, validate_antenna,
}

pub data Role : Type 0 where
  synchronization interference : Role

-- One antenna for all channels, or one for each.
pub data Antenna : Type 0 where
  same : Text → Antenna
  each : List (ℕ × Text) → Antenna

-- `_antenna_for`.
unfoldable pub antenna_for : Antenna → ℕ → Option Text
antenna_for (same a) ch = some a
antenna_for (each d) ch = value_at ch d

-- `sorted`.
unfoldable pub insort : ℕ → List ℕ → List ℕ
insort n [] = n ∷ []
insort n (m ∷ ms) = if leb n m then n ∷ m ∷ ms else m ∷ insort n ms

unfoldable pub sorted : List ℕ → List ℕ
unfolding insort
sorted [] = []
sorted (n ∷ ns) = insort n (sorted ns)

unfoldable pub same_list : List ℕ → List ℕ → Bool
same_list [] [] = true
same_list (m ∷ ms) (n ∷ ns) = m == n && same_list ms ns
same_list _ _ = false

unfoldable pub any_invalid : ℕ → List ℕ → Bool
any_invalid n [] = false
any_invalid n (c ∷ cs) = not (ltb c n) || any_invalid n cs

unfoldable pub any_common : List ℕ → List ℕ → Bool
any_common [] ns = false
any_common (m ∷ ms) ns = is_member m ns || any_common ms ns

module _ (fl : Floats) where
  pub record Request : Type 0 where
    pub fs : fl.Float
    pub fc : fl.Float
    pub sync : List ℕ
    pub intf : List ℕ
    pub channel_gains : List (ℕ × fl.Float)
    pub antenna : Antenna
    pub channel_powers : List (ℕ × fl.Float)
    pub bw : Option fl.Float

  -- What is asked of one channel.
  pub record Wanted : Type 0 where
    pub channel : ℕ
    pub role : Role
    pub fc : fl.Float
    pub gain : fl.Float
    pub power : Option fl.Float
    pub bw : Option fl.Float
    pub antenna : Text

  abbrev pub requested_channels : Request → List ℕ
  requested_channels r = r.sync ++ r.intf

  unfoldable pub any_without_gain : List (ℕ × fl.Float) → List ℕ → Bool
  unfolding value_at
  any_without_gain gains [] = false
  any_without_gain gains (c ∷ cs) =
      elim (value_at c gains) [ none ↦ true | some g ↦ false ] || any_without_gain gains cs

  unfoldable pub check_channels : ℕ → Request → Result Refusal (Unit {0})
  unfolding any_invalid any_common any_without_gain
  check_channels n r = do
    raise_if (length (requested_channels r) == 0) none_requested
    raise_if (any_invalid n (requested_channels r)) invalid_channels
    raise_if (any_common r.sync r.intf) overlapping_channels
    raise_if (any_without_gain r.channel_gains (requested_channels r)) missing_gains

  -- The checks of one channel, and what is asked of it.
  unfoldable pub validate_channel :
      (usrp : Radio fl) → usrp.Hardware → Request → ℕ → Result Refusal Wanted
  unfolding validate_carrier_frequency validate_gain validate_antenna antenna_for
  validate_channel usrp h r ch = do
    validate_carrier_frequency fl usrp h r.fc ch
    gain ← elim (value_at ch r.channel_gains) [ none ↦ err missing_gains | some g ↦ ok g ]
    validate_gain fl usrp h gain ch
    antenna ← validate_antenna fl usrp h (antenna_for r.antenna ch) ch
    ok (record {
      channel = ch;
      role = if is_member ch r.sync then synchronization else interference;
      fc = r.fc;
      gain = gain;
      power = value_at ch r.channel_powers;
      bw = r.bw;
      antenna = antenna;
    })

  unfoldable pub validate_channels :
      (usrp : Radio fl) → usrp.Hardware → Request → List ℕ → Result Refusal (List Wanted)
  validate_channels usrp h r [] = ok []
  validate_channels usrp h r (c ∷ cs) = do
    w ← validate_channel usrp h r c
    ws ← validate_channels usrp h r cs
    ok (w ∷ ws)

  -- All checks.
  unfoldable pub validate :
      (usrp : Radio fl) → usrp.Hardware → Request → Result Refusal (List Wanted)
  validate usrp h r = do
    check_channels (usrp.get_tx_num_channels h) r
    validate_sampling_rate fl usrp h r.fs
    validate_channels usrp h r (requested_channels r)
