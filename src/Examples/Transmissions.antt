-- ===== src/Examples/Transmissions.antt =====
-- The TX daemon's operations at concrete inputs.
use usrp_playground.Prelude.{
  ℕ, ◌+◌, ◌≡◌, ◌≢◌, ◌≤◌, ◌<◌, refl, true, List, [], ◌∷◌, none, some, get_elem?, min, length, ◌==◌,
  ok, err, arith,
}
use usrp_playground.Prelude.Numbers.{is_member}
use usrp_playground.Daemon.Signal.{Samples, File, flat, rows, matrix, holds, wrong_rows}
use usrp_playground.Daemon.Store.{max_channel, Store, assemble_tx_signal, load_signal}
use usrp_playground.Daemon.Store.Failure.{FailsWith, load_signal-error}
use usrp_playground.Daemon.Transmit.{transmit_with_delay, out_of_fuel, sent, n_columns}
use usrp_playground.Daemon.Transmit.Loop.{
  transmit_with_delay-ne-out_of_fuel, transmit_with_delay-eq-sent,
}
use usrp_playground.Daemon.Transmit.Delivery.{delivered, delivered-transmit_with_delay}
use usrp_playground.Daemon.Transmit.Burst.{IsComplete, burst_of, burst-assemble_tx_signal}
use usrp_playground.Daemon.Transmit.Framing.{
  AllAccepted, StartsOnce, EndsBurst, transmit_with_delay-framed,
}

-- Real samples, whole numbers.
abbrev pub numbers : Samples
numbers = record { Sample = ℕ; zero_sample = 0; is_zero_sample = λ x. x == 0; join = ◌+◌ }

-- A streamer that takes two samples at most.
abbrev pub by_two : ℕ → ℕ → ℕ
by_two round offered = min 2 offered

by_two-le : (round k : ℕ) → by_two round k ≤ k
by_two-le round k = omega arith

by_two-positive : (round k : ℕ) → 0 < k → 0 < by_two round k
by_two-positive round k h = omega arith

-- Two rows of five samples for channels 1 and 0, and three samples for channel 3.
abbrev loaded : Store numbers
loaded = record {
  sync_channels = 1 ∷ 0 ∷ [];
  intf_channels = 3 ∷ [];
  sync_signal_data = some (rows 5 ((1 ∷ 2 ∷ 3 ∷ 4 ∷ 5 ∷ []) ∷ (6 ∷ 7 ∷ 8 ∷ 9 ∷ 10 ∷ []) ∷ []));
  intf_signal_data = some (flat (21 ∷ 22 ∷ 23 ∷ []));
  tx_signal = none;
  signal_samples = 0;
}

assembled : (assemble_tx_signal numbers loaded).1 ≡ ok tt
unfolding assemble_tx_signal
assembled = refl

abbrev three_rows : List (List ℕ)
three_rows = (1 ∷ 2 ∷ 3 ∷ 4 ∷ 5 ∷ []) ∷ (6 ∷ 7 ∷ 8 ∷ 9 ∷ 10 ∷ []) ∷ (0 ∷ 0 ∷ 0 ∷ 0 ∷ 0 ∷ []) ∷ []

returned :
    (burst_of numbers by_two 4 loaded 100 7 5 (assemble_tx_signal numbers loaded).0.tx_signal).1
    ≡ sent 5
unfolding assemble_tx_signal transmit_with_delay
returned = refl

burst-assemble_tx_signal_example :
    IsComplete numbers by_two 4 loaded 100 7 5 (assemble_tx_signal numbers loaded).0.tx_signal
unfolding is_member
burst-assemble_tx_signal_example =
    burst-assemble_tx_signal numbers by_two 4 loaded 100 7 5 (refl, (refl, tt)) (refl, tt)
      (refl, (refl, tt)) (refl, (refl, tt)) tt assembled by_two-le returned

sent_five :
    (transmit_with_delay numbers by_two (some 4) (some three_rows) (1 ∷ 0 ∷ []) 100 7).1 ≡ sent 5
unfolding transmit_with_delay
sent_five = refl

delivered-transmit_with_delay_example :
    (5 ≡ n_columns numbers three_rows)
    × ((j c : ℕ) (row : List ℕ)
        → get_elem? (1 ∷ 0 ∷ []) j ≡ some c
        → get_elem? three_rows c ≡ some row
        → length row ≡ n_columns numbers three_rows
        → delivered numbers j
            (transmit_with_delay numbers by_two (some 4) (some three_rows) (1 ∷ 0 ∷ []) 100 7).0
          ≡ row)
delivered-transmit_with_delay_example =
    delivered-transmit_with_delay numbers by_two 4 three_rows (1 ∷ 0 ∷ []) 100 7 5 by_two-le
      sent_five

transmit_with_delay-framed_example :
    AllAccepted numbers
      (transmit_with_delay numbers by_two (some 4) (some three_rows) (1 ∷ 0 ∷ []) 100 7).0
    × StartsOnce numbers 107
        (transmit_with_delay numbers by_two (some 4) (some three_rows) (1 ∷ 0 ∷ []) 100 7).0
    × EndsBurst numbers
        (transmit_with_delay numbers by_two (some 4) (some three_rows) (1 ∷ 0 ∷ []) 100 7).0
transmit_with_delay-framed_example =
    transmit_with_delay-framed numbers by_two 4 three_rows (1 ∷ 0 ∷ []) 100 7 5 by_two-le sent_five

-- A streamer that never takes anything.
transmit_with_delay-ne-out_of_fuel_example :
    (transmit_with_delay numbers (λ round k. 0) (some 4) (some three_rows) (1 ∷ 0 ∷ []) 100 7).1
    ≢ out_of_fuel
transmit_with_delay-ne-out_of_fuel_example =
    transmit_with_delay-ne-out_of_fuel numbers (λ round k. 0) (some 4) (some three_rows)
      (1 ∷ 0 ∷ []) 100 7

transmit_with_delay-eq-sent_example :
    (transmit_with_delay numbers by_two (some 4) (some three_rows) (1 ∷ 0 ∷ []) 100 7).1
    ≡ sent (n_columns numbers three_rows)
unfolding max_channel
transmit_with_delay-eq-sent_example =
    transmit_with_delay-eq-sent numbers by_two 4 three_rows (1 ∷ 0 ∷ []) 100 7 (omega arith)
      by_two-le by_two-positive (omega arith)

-- One row for two channels.
abbrev one_row : File numbers
one_row =
    holds (record {
      multichannel = true;
      complex_format = none;
      dataset = matrix 2 ((1 ∷ 2 ∷ []) ∷ []);
    })

rejected : (load_signal numbers loaded (some one_row) none).1 ≡ err wrong_rows
unfolding load_signal
rejected = refl

load_signal-error_example :
    FailsWith numbers loaded wrong_rows (load_signal numbers loaded (some one_row) none).0
load_signal-error_example = load_signal-error numbers loaded (some one_row) none wrong_rows rejected
