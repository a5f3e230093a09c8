-- ===== src/Daemon/Server.antt =====
-- usrp_testbed_library/tx_daemon.py, `handle_request`: one request to the TX daemon and its answer.
pub mod Malformed
use usrp_playground.Prelude.{
  ℕ, zero, suc, ◌+◌, Bool, true, false, not, ◌&&◌, ◌||◌, List, [], ◌∷◌, ◌++◌, Option, none, some,
  if◌then◌else◌, Result, ok, err, ◌>>=◌, ◌>>◌, raise_if,
}
use usrp_playground.Prelude.Text.{Text, codes, text_eq, lower}
use usrp_playground.Prelude.Int.{ℤ, pos, negsuc}
use usrp_playground.Prelude.Numbers.{value_at, set_at}
use usrp_playground.Daemon.Signal.{Samples, Problem, File}
use usrp_playground.Daemon.Store.{Store, load_signal}
use usrp_playground.Daemon.Transmit.{Send, Outcome, sent, transmit_with_delay}
use usrp_playground.Daemon.Radio.{Floats, Radio, Refusal}
use usrp_playground.Daemon.Asked.{Antenna, same, Request}
use usrp_playground.Daemon.Tuning.{Settings}
use usrp_playground.Daemon.Configure.{Streamer, Daemon, configure_usrp}
use usrp_playground.Daemon.Reference.{Board, Change, done, change_time_and_clock_source}
use usrp_playground.Daemon.Mismatch.{
  Measured, tx_gain, Target, gain_each, Difference, check_settings_mismatch,
}
use usrp_playground.Daemon.Fields.{
  Failure, missing_parameters, unsupported_source, invalid_operation, bad_value, refused,
  not_loaded, not_sent, not_changed, ConfigureFields, read_configure, read_transmit, read_change,
}
use usrp_playground.Daemon.Values.{
  Values, BadValue, not_an_int, float_or, positive_float, not_negative_float, int_list,
  validate_gain_dict,
}

abbrev pub chunk_of : Option Streamer → Option ℕ
chunk_of none = none
chunk_of (some st) = some st.max_num_samps

-- `requested_params` and `actual_settings`, as they are compared.
module _ (fl : Floats) where
  unfoldable pub target_of : Request fl → Target fl
  target_of r = record {
    fs = r.fs;
    fc = r.fc;
    g_rx = gain_each [];
    g_tx = r.channel_gains;
    p_tx_dbm = r.channel_powers;
    antenna = r.antenna;
  }

  unfoldable pub measured_of : List (ℕ × Settings fl) → List (ℕ × Measured fl)
  measured_of [] = []
  measured_of ((ch, s) ∷ settings) =
      (
        ch,
        record {
          fs = s.actual_fs;
          fc = s.actual_fc;
          gain = tx_gain s.actual_gain s.actual_power;
          antenna = s.actual_antenna;
        },
      )
      ∷ measured_of settings

  pub data Reply : Type 0 where
    ready loaded changed : Reply
    device_time : ℕ → Reply
    configured : List (ℕ × Settings fl) → Reply
    mismatched : List (ℕ × Settings fl) → List (ℕ × List (Difference fl)) → Reply
    samples_sent : ℕ → Reply
    failed : Failure → Reply

  unfoldable pub report : Request fl → List (ℕ × Settings fl) → Reply
  report r actual = elim (check_settings_mismatch fl (measured_of actual) (target_of r)) [
    | [] ↦ configured actual
    | m ∷ ms ↦ mismatched actual (m ∷ ms)
  ]

module _ (fl : Floats) (py : Values fl) (sp : Samples) where
  pub data Operation : Type 0 where
    ping get_time unknown : Operation
    configure : ConfigureFields fl py → Operation
    load : Option (File sp) → Option (File sp) → Operation
    transmit : Option py.Value → Option py.Value → Operation
    -- The source, and the timeout and the period, with their defaults filled in. There is one motherboard.
    change_reference : Option py.Value → py.Value → py.Value → Operation

-- The time of the radio at the request, the samples that each `send` takes, and the floats of a delay in
-- ticks of that time are parameters too.
module _ (fl : Floats) (py : Values fl) (sp : Samples) (usrp : Radio fl) (board : Board)
    (accept : ℕ → ℕ → ℕ) (elapsed : ℕ → ℕ) (to_ticks : fl.Float → ℕ) where
  -- The daemon, with the part of the radio that has the clock and the time source.
  pub record Server : Type 0 where
    pub daemon : Daemon fl sp usrp
    pub sources : board.Hardware

  unfoldable pub handle_configure : Server → ConfigureFields fl py → Server × Reply fl
  unfolding report
  handle_configure s f = elim (read_configure fl py f) [
    | err e ↦ (s, failed e)
    | ok r ↦
        let (d, result) = configure_usrp fl sp usrp s.daemon r in
        (
          record s { daemon = d },
          elim result [ err e ↦ failed (refused e) | ok actual ↦ report fl r actual ],
        )
  ]

  both_missing : Option (File sp) → Option (File sp) → Bool
  both_missing none none = true
  both_missing _ _ = false

  unfoldable pub handle_load : Server → Option (File sp) → Option (File sp) → Server × Reply fl
  unfolding both_missing
  handle_load s sync intf =
      if both_missing sync intf
      then (s, failed missing_parameters)
      else let (st, result) = load_signal sp s.daemon.store sync intf in
        (
          record s { daemon = record s.daemon { store = st } },
          elim result [ err e ↦ failed (not_loaded e) | ok u ↦ loaded ],
        )

  -- The calls of `send` come with the answer.
  unfoldable pub handle_transmit :
      Server → ℕ → Option py.Value → Option py.Value → List (Send sp) × Reply fl
  handle_transmit s now delay timeout = elim (read_transmit fl py delay timeout) [
    | err e ↦ ([], failed e)
    | ok x ↦
        let (sends, outcome) =
          transmit_with_delay sp accept (chunk_of s.daemon.tx_streamer) s.daemon.store.tx_signal
            s.daemon.channels now (to_ticks x) in
        (sends, elim outcome [ sent n ↦ samples_sent n | other ↦ failed (not_sent other) ])
  ]

  unfoldable pub handle_change : Server → Option py.Value → py.Value → py.Value → Server × Reply fl
  handle_change s source timeout period = elim (read_change fl py source timeout period) [
    | err e ↦ (s, failed e)
    | ok asked ↦
        let ticks = to_ticks asked.1 in
        let (h, end) = change_time_and_clock_source board elapsed ticks ticks asked.0 s.sources in
        (record s { sources = h }, elim end [ done ↦ changed | other ↦ failed (not_changed other) ])
  ]

  -- `handle_request`.
  unfoldable pub handle_request :
      Server → ℕ → Operation fl py sp → Server × List (Send sp) × Reply fl
  unfolding handle_configure handle_load handle_transmit handle_change
  handle_request s now ping = (s, [], ready)
  handle_request s now get_time = (s, [], device_time now)
  handle_request s now (configure f) = let (s', r) = handle_configure s f in (s', [], r)
  handle_request s now (load sync intf) = let (s', r) = handle_load s sync intf in (s', [], r)
  handle_request s now (transmit delay timeout) =
      let (sends, r) = handle_transmit s now delay timeout in (s, sends, r)
  handle_request s now (change_reference source timeout period) =
      let (s', r) = handle_change s source timeout period in (s', [], r)
  handle_request s now unknown = (s, [], failed invalid_operation)
