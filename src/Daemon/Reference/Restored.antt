-- ===== src/Daemon/Reference/Restored.antt =====
-- How a change of the reference ends.
use usrp_playground.Prelude.{
  ℕ, zero, suc, ◌+◌, ◌≡◌, ◌≢◌, ◌≤◌, ◌<◌, ◌⊎◌, refl, sym, ap, subst, ◌∙◌, Bool, true, false, ◌&&◌,
  ◌||◌, some, if◌then◌else◌, ltb, arith, Option-cases, Bool-cases, inl, inr,
}
use usrp_playground.Prelude.Text.{Text, codes, text_eq, text_eq_iff, lower}
use usrp_playground.Daemon.Reference.{
  gps_locked, pps_detected, Board, Wait, locked, unlocked, raised, out_of_fuel, Change, done,
  unsupported, no_gpsdo, lock_timed_out, sensor_failed, no_fuel, all_locked, wait_for_lock,
  settle_lock, set_sources, restore_sources, setter_failed, switch_to_gpsdo,
  change_time_and_clock_source,
}

module _ (board : Board) where
  -- Each source is what was set last.
  pub record KeepsSources : Type 0 where
    pub clock_clock :
        (s : Text) (h h' : board.Hardware)
        → board.set_clock_source s h ≡ some h'
        → board.get_clock_source h' ≡ s
    pub time_time :
        (s : Text) (h h' : board.Hardware)
        → board.set_time_source s h ≡ some h'
        → board.get_time_source h' ≡ s
    pub clock_time :
        (s : Text) (h h' : board.Hardware)
        → board.set_time_source s h ≡ some h'
        → board.get_clock_source h' ≡ board.get_clock_source h
    pub time_clock :
        (s : Text) (h h' : board.Hardware)
        → board.set_clock_source s h ≡ some h'
        → board.get_time_source h' ≡ board.get_time_source h

  abbrev pub HasSources : Text → Text → board.Hardware → Type 0
  HasSources clock time h = (board.get_clock_source h ≡ clock) × (board.get_time_source h ≡ time)

  -- Each source is the one asked for or still the old one.
  abbrev pub IsBetween : Text → board.Hardware → board.Hardware → Type 0
  IsBetween s h h' =
      ((board.get_clock_source h' ≡ s) ⊎ (board.get_clock_source h' ≡ board.get_clock_source h))
      × ((board.get_time_source h' ≡ s) ⊎ (board.get_time_source h' ≡ board.get_time_source h))

  abbrev WhenSet : Text → board.Hardware → board.Hardware → Bool → Type 0
  WhenSet s h h' true = HasSources s s h'
  WhenSet s h h' false = IsBetween s h h'

  set_sources-WhenSet :
      (s : Text) (h : board.Hardware)
      → KeepsSources
      → WhenSet s h (set_sources board s h).0 (set_sources board s h).1
  unfolding set_sources
  set_sources-WhenSet s h keeps =
      let ends = λ (x : board.Hardware × Bool). WhenSet s h x.0 x.1 in
      elim (Option-cases (board.set_clock_source s h)) [
        | inl none' ↦
            let out : set_sources board s h ≡ (h, false) = ground (arith, none') in
            subst ends (sym out) (inr refl, inr refl)
        | inr (h₁, e) ↦ elim (Option-cases (board.set_time_source s h₁)) [
          | inl none' ↦
              let out : set_sources board s h ≡ (h₁, false) = ground (arith, e, none') in
              subst ends (sym out)
                (inl (keeps.clock_clock s h h₁ e), inr (keeps.time_clock s h h₁ e))
          | inr (h₂, d) ↦
              let out : set_sources board s h ≡ (h₂, true) = ground (arith, e, d) in
              subst ends (sym out)
                (keeps.clock_time s h₁ h₂ d ∙ keeps.clock_clock s h h₁ e, keeps.time_time s h₁ h₂ d)
        ]
      ]

  module _ (elapsed : ℕ → ℕ) (lock_timeout : ℕ) where
    -- All locks were read in a round before the time was over.
    abbrev pub WasLocked : Bool → board.Hardware → Type 0
    WasLocked with_pps h =
        (round : ℕ) × (elapsed round < lock_timeout)
        × (all_locked board with_pps round h ≡ some true)

    -- What each end of the operation leaves: `h` before, `h'` after.
    abbrev pub Ends : Text → board.Hardware → board.Hardware → Change → Type 0
    Ends s h h' done =
        HasSources s s h'
        × ((h' ≡ h) ⊎ (s ≡ codes "internal") ⊎ WasLocked (board.has_sensor pps_detected h) h')
    Ends s h h' unsupported = (h' ≡ h) × (s ≢ codes "internal") × (s ≢ codes "gpsdo")
    Ends s h h' no_gpsdo = (h' ≡ h) × (board.has_sensor gps_locked h ≡ false)
    Ends s h h' lock_timed_out = HasSources (board.get_clock_source h) (board.get_time_source h) h'
    Ends s h h' sensor_failed = HasSources (codes "gpsdo") (codes "gpsdo") h'
    Ends s h h' setter_failed = IsBetween s h h'
    Ends s h h' no_fuel = ⊥

    wait_for_lock-locked :
        (fuel round : ℕ) (with_pps : Bool) (h : board.Hardware)
        → wait_for_lock board elapsed lock_timeout fuel round with_pps h ≡ locked
        → WasLocked with_pps h
    unfolding wait_for_lock
    wait_for_lock-locked zero round with_pps h e = absurd (ground (arith, e))
    wait_for_lock-locked (suc fuel) round with_pps h e =
        elim (Bool-cases (ltb (elapsed round) lock_timeout)) [
          | inr over ↦ absurd (ground (arith, e, over))
          | inl early ↦ elim (Option-cases (all_locked board with_pps round h)) [
            | inl failed ↦ absurd (ground (arith, e, early, failed))
            | inr (b, read) ↦ elim (Bool-cases b) [
              | inl yes' ↦ (round, ground (arith, early), read ∙ ap some yes')
              | inr no' ↦
                  wait_for_lock-locked fuel (round + 1) with_pps h
                    (ground (arith, e, early, read, no'))
            ]
          ]
        ]

    wait_for_lock-ne-out_of_fuel :
        (fuel round : ℕ) (with_pps : Bool) (h : board.Hardware)
        → ((r : ℕ) → r ≤ elapsed r)
        → lock_timeout ≤ round + fuel
        → wait_for_lock board elapsed lock_timeout fuel round with_pps h ≢ out_of_fuel
    unfolding wait_for_lock
    wait_for_lock-ne-out_of_fuel zero round with_pps h grows le = ground (arith, grows round)
    wait_for_lock-ne-out_of_fuel (suc fuel) round with_pps h grows le =
        ground (arith, wait_for_lock-ne-out_of_fuel fuel (round + 1) with_pps h grows)

    restore_sources-Ends :
        (s : Text) (h h' : board.Hardware)
        → KeepsSources
        → HasSources s s h'
        → let clock = board.get_clock_source h in
          let time = board.get_time_source h in
          Ends s h (restore_sources board clock time h').0 (restore_sources board clock time h').1
    unfolding restore_sources
    restore_sources-Ends s h h' keeps (clock, time) =
        let new = board.get_clock_source h in
        let old = board.get_time_source h in
        let ends = λ (x : board.Hardware × Change). Ends s h x.0 x.1 in
        elim (Option-cases (board.set_time_source old h')) [
          | inl none' ↦
              let out : restore_sources board new old h' ≡ (h', setter_failed) =
                ground (arith, none') in
              subst ends (sym out) (inl clock, inl time)
          | inr (h₁, e) ↦ elim (Option-cases (board.set_clock_source new h₁)) [
            | inl none' ↦
                let out : restore_sources board new old h' ≡ (h₁, setter_failed) =
                  ground (arith, e, none') in
                subst ends (sym out)
                  (inl (keeps.clock_time old h' h₁ e ∙ clock), inr (keeps.time_time old h' h₁ e))
            | inr (h₂, d) ↦
                let out : restore_sources board new old h' ≡ (h₂, lock_timed_out) =
                  ground (arith, e, d) in
                subst ends (sym out) (
                  keeps.clock_clock new h₁ h₂ d,
                  keeps.time_clock new h₁ h₂ d ∙ keeps.time_time old h' h₁ e,
                )
          ]
        ]

    settle_lock-Ends :
        (h h' : board.Hardware) (fuel : ℕ) (w : Wait)
        → KeepsSources
        → ((r : ℕ) → r ≤ elapsed r)
        → lock_timeout ≤ fuel
        → HasSources (codes "gpsdo") (codes "gpsdo") h'
        → wait_for_lock board elapsed lock_timeout fuel 0 (board.has_sensor pps_detected h) h' ≡ w
        → let out = settle_lock board (board.get_clock_source h) (board.get_time_source h) h' w in
          Ends (codes "gpsdo") h out.0 out.1
    unfolding settle_lock
    settle_lock-Ends h h' fuel locked keeps grows le both e =
        (both, inr (inr (wait_for_lock-locked fuel 0 (board.has_sensor pps_detected h) h' e)))
    settle_lock-Ends h h' fuel unlocked keeps grows le both e =
        restore_sources-Ends (codes "gpsdo") h h' keeps both
    settle_lock-Ends h h' fuel raised keeps grows le both e = both
    settle_lock-Ends h h' fuel out_of_fuel keeps grows le both e =
        wait_for_lock-ne-out_of_fuel fuel 0 (board.has_sensor pps_detected h) h' grows (omega arith)
          e

    switch_to_gpsdo-Ends :
        (h : board.Hardware) (fuel : ℕ)
        → KeepsSources
        → ((r : ℕ) → r ≤ elapsed r)
        → lock_timeout ≤ fuel
        → Ends
            (codes "gpsdo")
            h
            (switch_to_gpsdo board elapsed lock_timeout fuel h).0
            (switch_to_gpsdo board elapsed lock_timeout fuel h).1
    unfolding switch_to_gpsdo
    switch_to_gpsdo-Ends h fuel keeps grows le =
        let out = set_sources board (codes "gpsdo") h in
        let set : WhenSet (codes "gpsdo") h out.0 out.1 =
          set_sources-WhenSet (codes "gpsdo") h keeps in
        elim (Bool-cases (board.has_sensor gps_locked h)) [
          | inr missing ↦ rw missing (refl, missing)
          | inl there ↦ elim (Bool-cases out.1) [
            | inl both ↦
                rw (there, both)
                  (settle_lock-Ends h out.0 fuel _ keeps grows le (rw both at set) refl)
            | inr some' ↦ rw (there, some') (rw some' at set)
          ]
        ]

    internal_set :
        (s : Text) (h : board.Hardware)
        → KeepsSources
        → s ≡ codes "internal"
        → let out = set_sources board s h in Ends s h out.0 (if out.1 then done else setter_failed)
    internal_set s h keeps i =
        let out = set_sources board s h in
        let set : WhenSet s h out.0 out.1 = set_sources-WhenSet s h keeps in
        elim (Bool-cases out.1) [
          | inl both ↦ rw both (rw both at set, inr (inl i))
          | inr some' ↦ rw some' (rw some' at set)
        ]

    already :
        (s : Text) (h : board.Hardware)
        → (text_eq s (board.get_clock_source h) && text_eq s (board.get_time_source h)) ≡ true
        → HasSources s s h
    already s h e = ground (
      arith,
      e,
      text_eq_iff s (board.get_clock_source h),
      text_eq_iff s (board.get_time_source h),
    )

    not_internal :
        (s : Text)
        → (text_eq s (codes "internal") || text_eq s (codes "gpsdo")) ≡ false
        → s ≢ codes "internal"
    not_internal s u e = ground (arith, u, (text_eq_iff s (codes "internal")).1 e)

    not_gpsdo :
        (s : Text)
        → (text_eq s (codes "internal") || text_eq s (codes "gpsdo")) ≡ false
        → s ≢ codes "gpsdo"
    not_gpsdo s u e = ground (arith, u, (text_eq_iff s (codes "gpsdo")).1 e)

    either-true : (a b : Bool) → b ≡ true → (a || b) ≡ true
    either-true a b h = ground (arith, h)

    -- Let each source be what was set last, let every round of the wait take a unit of time, and let there
    -- be as many rounds as units in the timeout. A change that returns leaves both sources as asked, and
    -- those are the old ones, or the internal ones, or all locks were read before the timeout. It does
    -- nothing where the source is unknown or there is no GPSDO; a timeout whose two setters return
    -- restores both sources. A sensor that raises while the lock is awaited leaves the GPSDO selected. A
    -- setter that raises leaves each source as asked or as it was. The wait ends.
    pub change_time_and_clock_source-Ends :
        (h : board.Hardware) (source : Text) (fuel : ℕ)
        → KeepsSources
        → ((r : ℕ) → r ≤ elapsed r)
        → lock_timeout ≤ fuel
        → Ends
            (lower source)
            h
            (change_time_and_clock_source board elapsed lock_timeout fuel source h).0
            (change_time_and_clock_source board elapsed lock_timeout fuel source h).1
    unfolding change_time_and_clock_source
    change_time_and_clock_source-Ends h source fuel keeps grows le =
        let s = lower source in
        let is_internal = text_eq_iff s (codes "internal") in
        let is_gpsdo = text_eq_iff s (codes "gpsdo") in
        elim (Bool-cases
          (text_eq s (board.get_clock_source h) && text_eq s (board.get_time_source h))) [
            | inl there ↦
                elim (Bool-cases (text_eq s (codes "internal") || text_eq s (codes "gpsdo"))) [
                  | inl known ↦ rw known (rw there (already s h there, inl refl))
                  | inr unknown ↦ rw unknown (refl, not_internal s unknown, not_gpsdo s unknown)
                ]
            | inr apart ↦ elim (Bool-cases (text_eq s (codes "gpsdo"))) [
              | inl g ↦
                  rw (either-true (text_eq s (codes "internal")) (text_eq s (codes "gpsdo")) g) (
                    rw apart (
                      rw g (
                        subst
                          (λ t.
                            Ends t h (switch_to_gpsdo board elapsed lock_timeout fuel h).0
                              (switch_to_gpsdo board elapsed lock_timeout fuel h).1)
                          (sym (is_gpsdo.0 g)) (switch_to_gpsdo-Ends h fuel keeps grows le))))
              | inr g ↦ elim (Bool-cases (text_eq s (codes "internal"))) [
                | inl i ↦ rw i (rw apart (rw g (internal_set s h keeps (is_internal.0 i))))
                | inr i ↦ rw i (
                    rw g (
                      refl,
                      λ e. ground (arith, i, is_internal.1 e),
                      λ e. ground (arith, g, is_gpsdo.1 e),
                    ))
              ]
            ]
          ]
