-- ===== src/Daemon/Configure.antt =====
-- usrp_testbed_library/tx_daemon.py, `configure_usrp`, which sets on the radio only what has changed.
pub mod Changes
pub mod Again
pub mod Streams
pub mod Refused
use usrp_playground.Prelude.{
  ℕ, zero, suc, ◌+◌, Bool, true, false, not, ◌&&◌, ◌||◌, List, [], ◌∷◌, ◌++◌, Option, none, some,
  length, ◌==◌, if◌then◌else◌, Result, ok, err, ◌>>=◌, ◌>>◌, raise_if,
}
use usrp_playground.Daemon.Signal.{Samples, Signal, flat, rows, Problem}
use usrp_playground.Daemon.Store.{Store, assemble_tx_signal}
use usrp_playground.Daemon.Radio.{
  fs_atol, Floats, Radio, Refusal, not_assembled, no_streamer, radio_failed,
}
use usrp_playground.Daemon.Asked.{Request, Wanted, requested_channels, sorted, same_list, validate}
use usrp_playground.Daemon.Tuning.{Known, Settings, has_changed, tune_channels}

-- The streamer, and the channels that it was opened on.
pub record Streamer : Type 0 where
  pub max_num_samps : ℕ
  pub stream_channels : List ℕ

unfoldable pub channels_changed : Option (List ℕ) → List ℕ → Bool
unfolding same_list sorted
channels_changed none cs = true
channels_changed (some old) cs = not (same_list old (sorted cs))

open_streamer : List ℕ → Option ℕ → Option Streamer
open_streamer cs none = none
open_streamer cs (some n) = some (record { max_num_samps = n; stream_channels = cs })

unfoldable pub is_open : Option Streamer → Bool
is_open none = false
is_open (some s) = true

-- Where the channels changed, a loaded signal follows them, or is dropped.
module _ (sp : Samples) where
  -- `_incompatible`.
  unfoldable pub incompatible : Option (Signal sp) → List ℕ → Bool
  incompatible (some (rows cols rs)) cs = not (length rs == length cs)
  incompatible _ cs = false

  has_signal : Option (Signal sp) → Bool
  has_signal none = false
  has_signal (some s) = true

  unfoldable pub refresh_signal : Bool → Store sp → Store sp × Result Problem (Unit {0})
  unfolding incompatible has_signal
  refresh_signal changed st =
      if changed
        && (incompatible st.sync_signal_data st.sync_channels
            || incompatible st.intf_signal_data st.intf_channels)
      then (record st { sync_signal_data = none; intf_signal_data = none; tx_signal = none }, ok tt)
      else if (has_signal st.sync_signal_data || has_signal st.intf_signal_data) && changed
      then assemble_tx_signal sp st
      else (st, ok tt)

module _ (fl : Floats) (usrp : Radio fl) where
  unfoldable pub any_off_rate : fl.Float → usrp.Hardware → List ℕ → Bool
  any_off_rate fs h [] = false
  any_off_rate fs h (c ∷ cs) =
      not (fl.is_close fs_atol (usrp.get_tx_rate c h) fs) || any_off_rate fs h cs

  unfoldable pub set_rate : Bool → fl.Float → usrp.Hardware → usrp.Hardware × Bool
  set_rate false fs h = (h, true)
  set_rate true fs h = elim (usrp.set_tx_rate fs h) [ none ↦ (h, false) | some h' ↦ (h', true) ]

  -- The rate is set for all channels: if it changed, and again if a channel runs at another one. With it,
  -- whether no setter raised.
  unfoldable pub tune_rate :
      Option fl.Float → fl.Float → List ℕ → usrp.Hardware → usrp.Hardware × Bool
  unfolding has_changed any_off_rate set_rate
  tune_rate current fs cs h =
      let (h', set) = set_rate (has_changed fl fs_atol current fs) fs h in
      let again = set_rate (any_off_rate fs h' cs) fs h' in if set then again else (h', false)

  -- The streamer is opened again only if the channels changed, or if there is none.
  unfoldable pub renew_streamer : Bool → List ℕ → usrp.Hardware → Option Streamer → Option Streamer
  unfolding open_streamer is_open
  renew_streamer changed cs h old =
      if changed || not (is_open old) then open_streamer cs (usrp.get_tx_stream cs h) else old

module _ (fl : Floats) (sp : Samples) (usrp : Radio fl) where
  -- `current_config` has the rate and the sorted channels of the last configuration.
  pub record Daemon : Type 0 where
    pub hardware : usrp.Hardware
    pub store : Store sp
    pub channels : List ℕ
    pub current_fs : Option fl.Float
    pub current_channels : Option (List ℕ)
    pub channel_configs : List (ℕ × Known fl)
    pub tx_streamer : Option Streamer

  -- From the streamer on.
  unfoldable pub finish :
      Bool
      → Daemon
      → Request fl
      → List (ℕ × Settings fl)
      → Daemon × Result Refusal (List (ℕ × Settings fl))
  finish changed d r actual =
      let cs = requested_channels fl r in
      let streamer = renew_streamer fl usrp changed cs d.hardware d.tx_streamer in
      let renewed = record d { tx_streamer = streamer } in
      if is_open streamer
      then (
        record renewed { current_fs = some r.fs; current_channels = some (sorted cs) },
        ok actual,
      )
      else (renewed, err no_streamer)

  -- From the sampling rate on, with the channels and signals assigned.
  unfoldable pub retune :
      Bool
      → Daemon
      → Request fl
      → List (Wanted fl)
      → Daemon × Result Refusal (List (ℕ × Settings fl))
  retune changed d r ws =
      let cs = requested_channels fl r in
      let (at_rate, rated) = tune_rate fl usrp d.current_fs r.fs cs d.hardware in
      let (h, known, tuned) = tune_channels fl usrp ws at_rate d.channel_configs [] in
      if rated
      then elim tuned [
        | none ↦ (record d { hardware = h; channel_configs = known }, err radio_failed)
        | some actual ↦ finish changed (record d { hardware = h; channel_configs = known }) r actual
      ]
      else (record d { hardware = at_rate }, err radio_failed)

  -- From the assignment of the channels on, which all checks precede.
  unfoldable pub apply :
      Daemon → Request fl → List (Wanted fl) → Daemon × Result Refusal (List (ℕ × Settings fl))
  apply d r ws =
      let cs = requested_channels fl r in
      let changed = channels_changed d.current_channels cs in
      let assigned = record d.store { sync_channels = r.sync; intf_channels = r.intf } in
      let (st, refreshed) = refresh_signal sp changed assigned in
      let started = record d { store = st; channels = cs } in
      elim refreshed [
        | err e ↦ (started, err (not_assembled e))
        | ok u ↦ retune changed started r ws
      ]

  -- `configure_usrp`.
  unfoldable pub configure_usrp :
      Daemon → Request fl → Daemon × Result Refusal (List (ℕ × Settings fl))
  configure_usrp d r = elim (validate fl usrp d.hardware r) [
    | err e ↦ (d, err e)
    | ok ws ↦ apply d r ws
  ]
