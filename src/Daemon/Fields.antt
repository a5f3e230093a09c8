-- ===== src/Daemon/Fields.antt =====
-- usrp_testbed_library/tx_daemon.py, `handle_request`: the arguments that it reads from a request.
use usrp_playground.Prelude.{
  ℕ, true, false, not, ◌||◌, List, [], ◌∷◌, ◌++◌, Option, none, some, if◌then◌else◌, Result, ok,
  err, ◌>>=◌, ◌>>◌, raise_if,
}
use usrp_playground.Prelude.Text.{Text, codes, text_eq, lower}
use usrp_playground.Prelude.Int.{ℤ, pos, negsuc}
use usrp_playground.Prelude.Numbers.{set_at}
use usrp_playground.Daemon.Signal.{Problem}
use usrp_playground.Daemon.Transmit.{Outcome}
use usrp_playground.Daemon.Radio.{Floats, Refusal}
use usrp_playground.Daemon.Asked.{Antenna, same, Request}
use usrp_playground.Daemon.Reference.{Change}
use usrp_playground.Daemon.Values.{
  Values, BadValue, not_an_int, float_or, positive_float, not_negative_float, int_list,
  validate_gain_dict,
}

pub data Failure : Type 0 where
  missing_parameters unsupported_source invalid_operation : Failure
  bad_value : BadValue → Failure
  refused : Refusal → Failure
  not_loaded : Problem → Failure
  not_sent : Outcome → Failure
  not_changed : Change → Failure

-- A check of a value, as an exception of the handler.
abbrev pub checked {ℓ} : {A : Type ℓ} → Result BadValue A → Result Failure A
checked (err e) = err (bad_value e)
checked (ok x) = ok x

abbrev pub needed {ℓ} : {A : Type ℓ} → Option A → Result Failure A
needed none = err missing_parameters
needed (some x) = ok x

module _ (fl : Floats) (py : Values fl) where
  pub record ConfigureFields : Type 0 where
    pub fs : Option py.Value
    pub fc : Option py.Value
    pub g_tx : Option py.Value
    pub sync_channels : Option py.Value
    pub intf_channels : Option py.Value
    pub antenna : Option py.Value
    pub p_tx_dbm : Option py.Value
    pub bw : Option py.Value

  -- `int_list(..., non_negative=True, allow_empty=True)`, or no channels.
  unfoldable pub channels_or_none : Option py.Value → Result Failure (List ℕ)
  unfolding int_list
  channels_or_none none = ok []
  channels_or_none (some v) = checked (int_list fl py true true v)

  unfoldable pub set_power :
      Option ℤ → fl.Float → List (ℕ × fl.Float) → Result BadValue (List (ℕ × fl.Float))
  unfolding set_at
  set_power none p powers = err not_an_int
  set_power (some (negsuc n)) p powers = ok powers
  set_power (some (pos n)) p powers = ok (set_at n p powers)

  unfoldable pub power_entries :
      List (py.Value × py.Value) → List (ℕ × fl.Float) → Result BadValue (List (ℕ × fl.Float))
  unfolding set_power float_or
  power_entries [] powers = ok powers
  power_entries ((key, value) ∷ rest) powers = do
    raise_if (elim (py.to_int key) [ none ↦ true | some k ↦ false ]) not_an_int
    p ← float_or fl py (py.to_float value)
    powers' ← set_power (py.to_int key) p powers
    power_entries rest powers'

  unfoldable pub same_power : fl.Float → List ℕ → List (ℕ × fl.Float) → List (ℕ × fl.Float)
  unfolding set_at
  same_power p [] powers = powers
  same_power p (c ∷ cs) powers = same_power p cs (set_at c p powers)

  -- `{ch: float(raw) for ch in all_channels}`.
  unfoldable pub power_for_all : py.Value → List ℕ → Result BadValue (List (ℕ × fl.Float))
  unfolding same_power float_or
  power_for_all v [] = ok []
  power_for_all v (c ∷ cs) = do p ← float_or fl py (py.to_float v); ok (same_power p (c ∷ cs) [])

  -- `P_TX_DBM`: for each channel, or one for all.
  unfoldable pub powers_of : Option py.Value → List ℕ → Result BadValue (List (ℕ × fl.Float))
  unfolding power_entries power_for_all
  powers_of none cs = ok []
  powers_of (some v) cs =
      if py.is_none v
      then ok []
      else elim (py.dict_of v) [ some items ↦ power_entries items [] | none ↦ power_for_all v cs ]

  -- `positive_float(request["bw"]) if request.get("bw") else None`.
  unfoldable pub bw_of : Option py.Value → Result BadValue (Option fl.Float)
  unfolding positive_float
  bw_of none = ok none
  bw_of (some v) = if py.is_true v then (do x ← positive_float fl py v; ok (some x)) else ok none

  abbrev antenna_or_default : Option py.Value → Antenna
  antenna_or_default none = same (codes "TX/RX0")
  antenna_or_default (some v) = py.antenna_of v

  -- The arguments of `configure_usrp`.
  unfoldable pub read_configure : ConfigureFields → Result Failure (Request fl)
  unfolding channels_or_none powers_of bw_of positive_float validate_gain_dict
  read_configure f = do
    raw_fs ← needed f.fs
    raw_fc ← needed f.fc
    raw_g_tx ← needed f.g_tx
    fs ← checked (positive_float fl py raw_fs)
    fc ← checked (positive_float fl py raw_fc)
    sync ← channels_or_none f.sync_channels
    intf ← channels_or_none f.intf_channels
    gains ← checked (validate_gain_dict fl py raw_g_tx (sync ++ intf))
    powers ← checked (powers_of f.p_tx_dbm (sync ++ intf))
    bw ← checked (bw_of f.bw)
    ok (record {
      fs = fs;
      fc = fc;
      sync = sync;
      intf = intf;
      channel_gains = gains;
      antenna = antenna_or_default f.antenna;
      channel_powers = powers;
      bw = bw;
    })

  unfoldable pub timeout_of : Option py.Value → Result BadValue (Unit {0})
  unfolding positive_float
  timeout_of none = ok tt
  timeout_of (some v) = if py.is_none v then ok tt else (do x ← positive_float fl py v; ok tt)

  -- The timeout of a single `send`, and `delay`.
  unfoldable pub read_transmit : Option py.Value → Option py.Value → Result Failure fl.Float
  unfolding positive_float not_negative_float
  read_transmit delay timeout = do
    raw ← needed delay
    checked (timeout_of timeout)
    checked (not_negative_float fl py raw)

  -- The source, and how long to wait for the lock.
  unfoldable pub read_change :
      Option py.Value → py.Value → py.Value → Result Failure (Text × fl.Float)
  unfolding positive_float
  read_change source timeout period = do
    raw ← needed source
    let name = lower (py.to_text raw)
    raise_if (not (text_eq name (codes "internal") || text_eq name (codes "gpsdo")))
        unsupported_source
    lock_timeout ← checked (positive_float fl py timeout)
    poll_period ← checked (positive_float fl py period)
    ok (name, lock_timeout)
