-- ===== src/Examples/References.antt =====
-- The change of the reference on a board whose locks come after three rounds.
use usrp_playground.Prelude.{ℕ, ◌≡◌, refl, true, leb, some, arith}
use usrp_playground.Prelude.Text.{Text, codes, text_eq, lower}
use usrp_playground.Daemon.Reference.{
  Board, restore_sources, all_locked, wait_for_lock, settle_lock, set_sources, switch_to_gpsdo,
  change_time_and_clock_source, lock_timed_out, done,
}
use usrp_playground.Daemon.Reference.Restored.{
  KeepsSources, Ends, change_time_and_clock_source-Ends,
}

pub record Sources : Type 0 where
  pub clock : Text
  pub time : Text

abbrev pub slow_board : Board
slow_board = record {
  Hardware = Sources;
  get_clock_source = λ h. h.clock;
  set_clock_source = λ s h. some (record h { clock = s });
  get_time_source = λ h. h.time;
  set_time_source = λ s h. some (record h { time = s });
  has_sensor = λ s h. true;
  get_sensor = λ s round h. some (leb 3 round);
}

slow_board-KeepsSources : KeepsSources slow_board
slow_board-KeepsSources = record {
  clock_clock = λ s h h' e. ground (arith, e);
  time_time = λ s h h' e. ground (arith, e);
  clock_time = λ s h h' e. ground (arith, e);
  time_clock = λ s h h' e. ground (arith, e);
}

abbrev pub internal_sources : Sources
internal_sources = record { clock = codes "internal"; time = codes "internal" }

-- Each round takes one unit.
abbrev pub one_each : ℕ → ℕ
one_each round = round

change_time_and_clock_source-Ends_example :
    Ends slow_board one_each 5
      (lower (codes "GPSDO"))
      internal_sources
      (change_time_and_clock_source slow_board one_each 5 5 (codes "GPSDO") internal_sources).0
      (change_time_and_clock_source slow_board one_each 5 5 (codes "GPSDO") internal_sources).1
change_time_and_clock_source-Ends_example =
    change_time_and_clock_source-Ends slow_board one_each 5 internal_sources (codes "GPSDO") 5
      slow_board-KeepsSources (λ r. omega arith) (omega arith)

in_time :
    (change_time_and_clock_source slow_board one_each 5 5 (codes "GPSDO") internal_sources).1 ≡ done
unfolding change_time_and_clock_source lower text_eq switch_to_gpsdo settle_lock wait_for_lock
    all_locked set_sources restore_sources
in_time = refl

too_late :
    (change_time_and_clock_source slow_board one_each 2 2 (codes "GPSDO") internal_sources).1
    ≡ lock_timed_out
unfolding change_time_and_clock_source lower text_eq switch_to_gpsdo settle_lock wait_for_lock
    all_locked set_sources restore_sources
too_late = refl
