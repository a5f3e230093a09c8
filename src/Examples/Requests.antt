-- ===== src/Examples/Requests.antt =====
-- Requests to the TX daemon, and comparisons of its settings.
use usrp_playground.Prelude.{ℕ, ◌≡◌, ◌↔◌, refl, true, false, List, [], ◌∷◌, none, some, ◌==◌, All}
use usrp_playground.Prelude.Text.{codes, text_eq}
use usrp_playground.Prelude.Numbers.{value_at}
use usrp_playground.Prelude.Int.{pos}
use usrp_playground.Daemon.Asked.{same, antenna_for}
use usrp_playground.Daemon.Mismatch.{
  Measured, tx_gain, gain_each, Target, in_fc, differences, unless_close, gain_differences,
  antenna_differences, check_settings_mismatch,
}
use usrp_playground.Daemon.Mismatch.Applied.{IsApplied, check_settings_mismatch_iff}
use usrp_playground.Daemon.Values.{Values, not_positive}
use usrp_playground.Daemon.Fields.{bad_value, read_configure}
use usrp_playground.Daemon.Server.{Operation, configure, Server, failed, handle_request}
use usrp_playground.Daemon.Server.Malformed.{handle_request-malformed}
use usrp_playground.Examples.Transmissions.{numbers, by_two}
use usrp_playground.Examples.Configurations.{whole, bench, settled}
use usrp_playground.Examples.References.{slow_board, internal_sources, one_each}

abbrev target : Target whole
target = record {
  fs = 100;
  fc = 2000;
  g_rx = gain_each [];
  g_tx = (0, 10) ∷ [];
  p_tx_dbm = (1, 30) ∷ [];
  antenna = same (codes "TX/RX0");
}

-- A channel with its gain, and one with its power, on a frequency that is off by two.
abbrev measured : List (ℕ × Measured whole)
measured =
    (0, record { fs = 100; fc = 2000; gain = tx_gain 10 none; antenna = codes "TX/RX0" })
    ∷ (1, record { fs = 101; fc = 2002; gain = tx_gain 55 (some 30); antenna = codes "TX/RX0" })
    ∷ []

check_settings_mismatch_iff_example :
    (check_settings_mismatch whole measured target ≡ []) ↔ All (IsApplied whole target) measured
check_settings_mismatch_iff_example = check_settings_mismatch_iff whole measured target

off_by_two : check_settings_mismatch whole measured target ≡ (1, in_fc 2002 2000 ∷ []) ∷ []
unfolding check_settings_mismatch differences unless_close gain_differences value_at
    antenna_differences antenna_for text_eq
off_by_two = refl

-- Values that are all numbers.
abbrev plain : Values whole
plain = record {
  Value = ℕ;
  to_int = λ v. some (pos v);
  to_float = λ v. some v;
  to_text = λ v. [];
  is_none = λ v. false;
  is_true = λ v. true;
  list_of = λ v. some (v ∷ []);
  dict_of = λ v. none;
  antenna_of = λ v. same (codes "TX/RX0");
  is_not_positive = λ x. x == 0;
  is_negative = λ x. false;
}

-- A rate of zero.
abbrev zero_rate : Operation whole plain numbers
zero_rate = configure (record {
  fs = some 0;
  fc = some 2000;
  g_tx = some 10;
  sync_channels = some 0;
  intf_channels = none;
  antenna = none;
  p_tx_dbm = none;
  bw = none;
})

abbrev server : Server whole plain numbers bench slow_board by_two one_each (λ x. x)
server = record { daemon = settled; sources = internal_sources }

zero_rate_refused :
    (handle_request whole plain numbers bench slow_board by_two one_each
      (λ x. x)
      server
      7
      zero_rate).2
    ≡ failed (bad_value not_positive)
unfolding handle_request read_configure
zero_rate_refused = refl

handle_request-malformed_example :
    handle_request whole plain numbers bench slow_board by_two one_each (λ x. x) server 7 zero_rate
    ≡ (server, [], failed (bad_value not_positive))
handle_request-malformed_example =
    handle_request-malformed whole plain numbers bench slow_board by_two one_each (λ x. x) server 7
      zero_rate (bad_value not_positive) tt zero_rate_refused
