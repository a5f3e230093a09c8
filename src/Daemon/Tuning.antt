-- ===== src/Daemon/Tuning.antt =====
-- usrp_testbed_library/tx_daemon.py, `configure_usrp`: the settings of the channels, with the record of
-- what was set before.
pub mod Kept
use usrp_playground.Prelude.{
  ℕ, zero, suc, ◌+◌, Bool, true, false, not, ◌&&◌, ◌||◌, List, [], ◌∷◌, ◌++◌, Option, none, some,
  if◌then◌else◌,
}
use usrp_playground.Prelude.Text.{Text, text_eq}
use usrp_playground.Prelude.Numbers.{value_at, set_at}
use usrp_playground.Daemon.Radio.{
  Tolerance, fs_atol, fc_atol, g_atol, power_atol, bw_atol, Floats, Radio,
}
use usrp_playground.Daemon.Asked.{Role, Wanted}

module _ (fl : Floats) where
  -- An entry of `channel_configs`. At start-up it is read from the radio, with no role.
  pub record Known : Type 0 where
    pub known_fc : fl.Float
    pub known_gain : fl.Float
    pub known_power : Option fl.Float
    pub known_bw : Option fl.Float
    pub known_antenna : Text
    pub known_role : Option Role

  -- An entry of `actual_settings`.
  pub record Settings : Type 0 where
    pub role : Role
    pub actual_fs : fl.Float
    pub actual_fc : fl.Float
    pub actual_gain : fl.Float
    pub actual_power : Option fl.Float
    pub actual_bw : Option fl.Float
    pub actual_antenna : Text

  -- `prev is None or not np.isclose(prev, x, atol=...)`.
  unfoldable pub has_changed : Tolerance → Option fl.Float → fl.Float → Bool
  has_changed tol none x = true
  has_changed tol (some prev) x = not (fl.is_close tol prev x)

  -- The entry that is kept.
  unfoldable pub known_entry : Wanted fl → Known
  known_entry w = record {
    known_fc = w.fc;
    known_gain = w.gain;
    known_power = w.power;
    known_bw = w.bw;
    known_antenna = w.antenna;
    known_role = some w.role;
  }

  unfoldable pub antenna_changed : Option Known → Text → Bool
  antenna_changed none a = true
  antenna_changed (some k) a = not (text_eq k.known_antenna a)

  -- `prev_ch_config.get(...)`.
  abbrev pub prev_fc : Option Known → Option fl.Float
  prev_fc none = none
  prev_fc (some k) = some k.known_fc

  abbrev pub prev_gain : Option Known → Option fl.Float
  prev_gain none = none
  prev_gain (some k) = some k.known_gain

  abbrev pub prev_power : Option Known → Option fl.Float
  prev_power none = none
  prev_power (some k) = k.known_power

  abbrev pub prev_bw : Option Known → Option fl.Float
  prev_bw none = none
  prev_bw (some k) = k.known_bw

  module _ (usrp : Radio fl) where
    -- The setters of the frequency, the gain and the antenna are not guarded: `none` is their exception.
    unfoldable pub tune_freq : Wanted fl → Option Known → usrp.Hardware → Option usrp.Hardware
    unfolding has_changed
    tune_freq w prev h =
        if has_changed fc_atol (prev_fc prev) w.fc
        then usrp.set_tx_freq w.fc w.channel h
        else some h

    -- Where setting raises, the radio is as it was; where reading raises, it has been set.
    read_power : ℕ → usrp.Hardware → Option usrp.Hardware → usrp.Hardware × Option fl.Float
    read_power ch h none = (h, none)
    read_power ch h (some h') = (h', usrp.get_tx_power_reference ch h')

    unfoldable pub tune_power :
        Wanted fl → Option Known → usrp.Hardware → usrp.Hardware × Option fl.Float
    unfolding has_changed read_power
    tune_power w prev h = elim w.power [
      | none ↦ (h, none)
      | some p ↦ read_power w.channel h (
          if has_changed power_atol (prev_power prev) p
          then usrp.set_tx_power_reference p w.channel h
          else some h)
    ]

    -- The gain is set where the power reference was not used.
    unfoldable pub tune_gain :
        Wanted fl → Option Known → Option fl.Float → usrp.Hardware → Option usrp.Hardware
    unfolding has_changed
    tune_gain w prev (some p) h = some h
    tune_gain w prev none h =
        if has_changed g_atol (prev_gain prev) w.gain
        then usrp.set_tx_gain w.gain w.channel h
        else some h

    unfoldable pub tune_antenna : Wanted fl → Option Known → usrp.Hardware → Option usrp.Hardware
    unfolding antenna_changed
    tune_antenna w prev h =
        if antenna_changed prev w.antenna then usrp.set_tx_antenna w.antenna w.channel h else some h

    read_bw : ℕ → usrp.Hardware → Option usrp.Hardware → usrp.Hardware × Option fl.Float
    read_bw ch h none = (h, none)
    read_bw ch h (some h') = (h', usrp.get_tx_bandwidth ch h')

    unfoldable pub tune_bw :
        Wanted fl → Option Known → usrp.Hardware → usrp.Hardware × Option fl.Float
    unfolding has_changed read_bw
    tune_bw w prev h = elim w.bw [
      | none ↦ (h, none)
      | some b ↦ read_bw w.channel h (
          if has_changed bw_atol (prev_bw prev) b
          then usrp.set_tx_bandwidth b w.channel h
          else some h)
    ]

    -- One round of the loop over the channels, without the update of `channel_configs`: the radio, and the
    -- settings unless a setter raises.
    unfoldable pub tune_channel :
        Wanted fl → Option Known → usrp.Hardware → usrp.Hardware × Option Settings
    tune_channel w prev h = elim (tune_freq w prev h) [
      | none ↦ (h, none)
      | some tuned ↦
          let (powered, power) = tune_power w prev tuned in
          elim (tune_gain w prev power powered) [
            | none ↦ (powered, none)
            | some amplified ↦ elim (tune_antenna w prev amplified) [
              | none ↦ (amplified, none)
              | some connected ↦
                  let (filtered, bw) = tune_bw w prev connected in
                  (
                    filtered,
                    some (record {
                      role = w.role;
                      actual_fs = usrp.get_tx_rate w.channel h;
                      actual_fc = usrp.get_tx_freq w.channel tuned;
                      actual_gain = usrp.get_tx_gain w.channel amplified;
                      actual_power = power;
                      actual_bw = bw;
                      actual_antenna = usrp.get_tx_antenna w.channel connected;
                    }),
                  )
            ]
          ]
    ]

    -- The loop over the channels, with the settings that are returned. A channel in whose round a setter
    -- raises is not recorded, and ends the loop.
    unfoldable pub tune_channels :
        List (Wanted fl)
        → usrp.Hardware
        → List (ℕ × Known)
        → List (ℕ × Settings)
        → usrp.Hardware × List (ℕ × Known) × Option (List (ℕ × Settings))
    unfolding known_entry
    tune_channels [] h known actual = (h, known, some actual)
    tune_channels (w ∷ ws) h known actual =
        let (h', tuned) = tune_channel w (value_at w.channel known) h in
        elim tuned [
          | none ↦ (h', known, none)
          | some settings ↦
              tune_channels ws h' (set_at w.channel (known_entry w) known)
                (set_at w.channel settings actual)
        ]
