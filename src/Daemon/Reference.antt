-- ===== src/Daemon/Reference.antt =====
-- usrp_testbed_library/usrp_common.py, `change_time_and_clock_source`. The board is UHD's: `none` is a
-- sensor or a setter that raises; a setter that raises has set nothing. A sensor is read in a round of the loop, and `elapsed` is the time since the loop
-- began at the start of a round.
pub mod Restored
use usrp_playground.Prelude.{
  ℕ, zero, suc, ◌+◌, Bool, true, false, not, ◌&&◌, ◌||◌, List, [], ◌∷◌, Option, none, some, ltb,
  if◌then◌else◌,
}
use usrp_playground.Prelude.Text.{Text, codes, text_eq, lower}

pub data Sensor : Type 0 where
  gps_locked ref_locked pps_detected : Sensor

pub record Board : Type 1 where
  pub Hardware : Type 0
  pub get_clock_source : Hardware → Text
  pub set_clock_source : Text → Hardware → Option Hardware
  pub get_time_source : Hardware → Text
  pub set_time_source : Text → Hardware → Option Hardware
  pub has_sensor : Sensor → Hardware → Bool
  pub get_sensor : Sensor → ℕ → Hardware → Option Bool

-- How the wait for the lock ends, and how the operation does.
pub data Wait : Type 0 where
  locked unlocked raised out_of_fuel : Wait

pub data Change : Type 0 where
  done unsupported no_gpsdo lock_timed_out sensor_failed setter_failed : Change
  no_fuel : Change

module _ (board : Board) where
  -- Whether all locks are there, in one round.
  unfoldable pub all_locked : Bool → ℕ → board.Hardware → Option Bool
  all_locked with_pps round h = elim (board.get_sensor gps_locked round h) [
    | none ↦ none
    | some gps ↦ elim (board.get_sensor ref_locked round h) [
      | none ↦ none
      | some ref ↦
          if with_pps
          then elim (board.get_sensor pps_detected round h) [
            | none ↦ none
            | some pps ↦ some (gps && ref && pps)
          ]
          else some (gps && ref)
    ]
  ]

  -- The sources that were there before, the time first.
  unfoldable pub restore_sources : Text → Text → board.Hardware → board.Hardware × Change
  restore_sources clock time h = elim (board.set_time_source time h) [
    | none ↦ (h, setter_failed)
    | some h₁ ↦ elim (board.set_clock_source clock h₁) [
      | none ↦ (h₁, setter_failed)
      | some h₂ ↦ (h₂, lock_timed_out)
    ]
  ]

  -- With the sources set, the sources that were there before, and how the wait ended.
  unfoldable pub settle_lock : Text → Text → board.Hardware → Wait → board.Hardware × Change
  unfolding restore_sources
  settle_lock clock time h locked = (h, done)
  settle_lock clock time h unlocked = restore_sources clock time h
  settle_lock clock time h raised = (h, sensor_failed)
  settle_lock clock time h out_of_fuel = (h, no_fuel)

  -- Both sources, the clock first, and whether both were set.
  unfoldable pub set_sources : Text → board.Hardware → board.Hardware × Bool
  set_sources source h = elim (board.set_clock_source source h) [
    | none ↦ (h, false)
    | some h₁ ↦ elim (board.set_time_source source h₁) [ none ↦ (h₁, false) | some h₂ ↦ (h₂, true) ]
  ]

module _ (board : Board) (elapsed : ℕ → ℕ) (lock_timeout : ℕ) where
  -- The loop, with fuel. It ends with the last readings, which are no lock where the time is over.
  unfoldable pub wait_for_lock : ℕ → ℕ → Bool → board.Hardware → Wait
  wait_for_lock zero round with_pps h =
      if ltb (elapsed round) lock_timeout then out_of_fuel else unlocked
  wait_for_lock (suc fuel) round with_pps h =
      let rest = wait_for_lock fuel (round + 1) with_pps h in
      if ltb (elapsed round) lock_timeout
      then elim (all_locked board with_pps round h) [
        | none ↦ raised
        | some true ↦ locked
        | some false ↦ rest
      ]
      else unlocked

  unfoldable pub switch_to_gpsdo : ℕ → board.Hardware → board.Hardware × Change
  switch_to_gpsdo fuel h =
      let (h', both) = set_sources board (codes "gpsdo") h in
      if board.has_sensor gps_locked h
      then (if both
          then settle_lock board (board.get_clock_source h) (board.get_time_source h) h'
              (wait_for_lock fuel 0 (board.has_sensor pps_detected h) h')
          else (h', setter_failed))
      else (h, no_gpsdo)

  -- `change_time_and_clock_source`.
  unfoldable pub change_time_and_clock_source : ℕ → Text → board.Hardware → board.Hardware × Change
  change_time_and_clock_source fuel source h =
      let s = lower source in
      let internal = text_eq s (codes "internal") in
      let gpsdo = text_eq s (codes "gpsdo") in
      if not (internal || gpsdo)
      then (h, unsupported)
      else if text_eq s (board.get_clock_source h) && text_eq s (board.get_time_source h)
      then (h, done)
      else if gpsdo
      then switch_to_gpsdo fuel h
      else (let (h', both) = set_sources board s h in (h', if both then done else setter_failed))
