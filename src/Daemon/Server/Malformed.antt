-- ===== src/Daemon/Server/Malformed.antt =====
-- Requests that are refused for their form.
use usrp_playground.Prelude.{
  ℕ, ◌≡◌, ◌≢◌, refl, sym, subst, List, [], ◌∷◌, Option, none, some, arith, Result, ok, err,
  Result-cases, inl, inr,
}
use usrp_playground.Daemon.Signal.{Samples, File, Problem}
use usrp_playground.Daemon.Store.{load_signal}
use usrp_playground.Daemon.Transmit.{
  Outcome, not_ready, no_such_channel, timed_out, out_of_fuel, sent, transmit_with_delay,
}
use usrp_playground.Daemon.Radio.{Floats, Radio}
use usrp_playground.Daemon.Asked.{Request}
use usrp_playground.Daemon.Tuning.{Settings}
use usrp_playground.Daemon.Configure.{configure_usrp}
use usrp_playground.Daemon.Reference.{
  Board, Change, done, unsupported, no_gpsdo, lock_timed_out, sensor_failed, setter_failed, no_fuel,
  change_time_and_clock_source,
}
use usrp_playground.Daemon.Mismatch.{Difference, check_settings_mismatch}
use usrp_playground.Daemon.Values.{Values}
use usrp_playground.Daemon.Fields.{
  Failure, missing_parameters, unsupported_source, invalid_operation, bad_value, refused,
  not_loaded, not_sent, not_changed, ConfigureFields, read_configure, read_transmit, read_change,
}
use usrp_playground.Daemon.Server.{
  Operation, ping, get_time, unknown, configure, load, transmit, change_reference, Reply, loaded,
  changed, configured, mismatched, samples_sent, failed, Server, target_of, measured_of, report,
  handle_configure, handle_load, chunk_of, handle_transmit, handle_change, handle_request,
}

-- The request itself is at fault.
abbrev pub IsMalformed : Failure → Type 0
IsMalformed missing_parameters = Unit
IsMalformed unsupported_source = Unit
IsMalformed invalid_operation = Unit
IsMalformed (bad_value e) = Unit
IsMalformed (refused e) = ⊥
IsMalformed (not_loaded e) = ⊥
IsMalformed (not_sent o) = ⊥
IsMalformed (not_changed c) = ⊥

module _ (fl : Floats) where
  answer-ne-failed :
      (actual : List (ℕ × Settings fl)) (ms : List (ℕ × List (Difference fl))) (f : Failure)
      → ◌≢◌ {A = Reply fl}
          (elim ms [ [] ↦ configured actual | m ∷ r ↦ mismatched actual (m ∷ r) ])
          (failed f)
  answer-ne-failed actual [] f = cc
  answer-ne-failed actual (m ∷ r) f = cc

  report-ne-failed :
      (r : Request fl) (actual : List (ℕ × Settings fl)) (f : Failure)
      → report fl r actual ≢ failed f
  unfolding report
  report-ne-failed r actual f =
      answer-ne-failed actual (check_settings_mismatch fl (measured_of fl actual) (target_of fl r))
        f

  -- A failure of another kind is not one of form.
  not_this :
      (other e : Failure)
      → (IsMalformed other → ⊥)
      → IsMalformed e
      → ◌≢◌ {A = Reply fl} (failed other) (failed e)
  not_this other e n m h =
      let same : other ≡ e = ground (arith, h) in n (subst IsMalformed (sym same) m)

  load_answer :
      (r : Result Problem (Unit {0})) (e : Failure)
      → IsMalformed e
      → ◌≡◌ {A = Reply fl} (elim r [ err p ↦ failed (not_loaded p) | ok u ↦ loaded ]) (failed e)
      → ⊥
  load_answer (err p) e m h = not_this (not_loaded p) e (λ x. x) m h
  load_answer (ok u) e m h = cc

  transmit_answer :
      (o : Outcome) (e : Failure)
      → IsMalformed e
      → ◌≡◌ {A = Reply fl}
          (elim o [ sent n ↦ samples_sent n | other ↦ failed (not_sent other) ])
          (failed e)
      → ⊥
  transmit_answer (sent n) e m h = cc
  transmit_answer not_ready e m h = not_this (not_sent not_ready) e (λ x. x) m h
  transmit_answer no_such_channel e m h = not_this (not_sent no_such_channel) e (λ x. x) m h
  transmit_answer timed_out e m h = not_this (not_sent timed_out) e (λ x. x) m h
  transmit_answer out_of_fuel e m h = not_this (not_sent out_of_fuel) e (λ x. x) m h

  change_answer :
      (c : Change) (e : Failure)
      → IsMalformed e
      → ◌≡◌ {A = Reply fl}
          (elim c [ done ↦ changed | other ↦ failed (not_changed other) ])
          (failed e)
      → ⊥
  change_answer done e m h = cc
  change_answer unsupported e m h = not_this (not_changed unsupported) e (λ x. x) m h
  change_answer no_gpsdo e m h = not_this (not_changed no_gpsdo) e (λ x. x) m h
  change_answer lock_timed_out e m h = not_this (not_changed lock_timed_out) e (λ x. x) m h
  change_answer sensor_failed e m h = not_this (not_changed sensor_failed) e (λ x. x) m h
  change_answer setter_failed e m h = not_this (not_changed setter_failed) e (λ x. x) m h
  change_answer no_fuel e m h = not_this (not_changed no_fuel) e (λ x. x) m h

module _ (fl : Floats) (py : Values fl) (sp : Samples) (usrp : Radio fl) (board : Board)
    (accept : ℕ → ℕ → ℕ) (elapsed : ℕ → ℕ) (to_ticks : fl.Float → ℕ) where
  abbrev TxServer : Type 0
  TxServer = Server fl py sp usrp board accept elapsed to_ticks

  configure_malformed :
      (s : TxServer) (f : ConfigureFields fl py) (e : Failure)
      → IsMalformed e
      → (handle_configure fl py sp usrp board accept elapsed to_ticks s f).1 ≡ failed e
      → (handle_configure fl py sp usrp board accept elapsed to_ticks s f).0 ≡ s
  unfolding handle_configure
  configure_malformed s f e m h = elim (Result-cases (read_configure fl py f)) [
    | inl (e', q) ↦ ground (arith, q)
    | inr (r, q) ↦ elim (Result-cases (configure_usrp fl sp usrp s.daemon r).1) [
      | inl (no', p) ↦ absurd (not_this fl (refused no') e (λ x. x) m (ground (arith, h, q, p)))
      | inr (actual, p) ↦ absurd (report-ne-failed fl r actual e (ground (arith, h, q, p)))
    ]
  ]

  load_malformed :
      (s : TxServer) (sync intf : Option (File sp)) (e : Failure)
      → IsMalformed e
      → (handle_load fl py sp usrp board accept elapsed to_ticks s sync intf).1 ≡ failed e
      → (handle_load fl py sp usrp board accept elapsed to_ticks s sync intf).0 ≡ s
  unfolding handle_load
  load_malformed s none none e m h = refl
  load_malformed s (some f) intf e m h =
      absurd (load_answer fl (load_signal sp s.daemon.store (some f) intf).1 e m h)
  load_malformed s none (some f) e m h =
      absurd (load_answer fl (load_signal sp s.daemon.store none (some f)).1 e m h)

  transmit_malformed :
      (s : TxServer) (now : ℕ) (delay timeout : Option py.Value) (e : Failure)
      → IsMalformed e
      → (handle_transmit fl py sp usrp board accept elapsed to_ticks s now delay timeout).1
        ≡ failed e
      → (handle_transmit fl py sp usrp board accept elapsed to_ticks s now delay timeout).0 ≡ []
  unfolding handle_transmit
  transmit_malformed s now delay timeout e m h =
      elim (Result-cases (read_transmit fl py delay timeout)) [
        | inl (e', q) ↦ ground (arith, q)
        | inr (x, q) ↦
            let delivered =
              transmit_with_delay sp accept (chunk_of s.daemon.tx_streamer) s.daemon.store.tx_signal
                s.daemon.channels now (to_ticks x) in
            absurd (transmit_answer fl delivered.1 e m (rw (q, handle_transmit) at h))
      ]

  change_malformed :
      (s : TxServer) (source : Option py.Value) (timeout period : py.Value) (e : Failure)
      → IsMalformed e
      → (handle_change fl py sp usrp board accept elapsed to_ticks s source timeout period).1
        ≡ failed e
      → (handle_change fl py sp usrp board accept elapsed to_ticks s source timeout period).0 ≡ s
  unfolding handle_change
  change_malformed s source timeout period e m h =
      elim (Result-cases (read_change fl py source timeout period)) [
        | inl (e', q) ↦ ground (arith, q)
        | inr (asked, q) ↦
            let ticks : ℕ = to_ticks asked.1 in
            let end = change_time_and_clock_source board elapsed ticks ticks asked.0 s.sources in
            absurd (change_answer fl end.1 e m (rw (q, handle_change) at h))
      ]

  -- A request that is answered with an error of its form, a parameter that is missing or a value that is
  -- not what it should be, an unknown source or operation, has no effect: the daemon, its signals and its
  -- radio stay as they were, and nothing is sent.
  pub handle_request-malformed :
      (s : TxServer) (now : ℕ) (c : Operation fl py sp) (e : Failure)
      → IsMalformed e
      → (handle_request fl py sp usrp board accept elapsed to_ticks s now c).2 ≡ failed e
      → handle_request fl py sp usrp board accept elapsed to_ticks s now c ≡ (s, [], failed e)
  unfolding handle_request
  handle_request-malformed s now ping e m h = cc
  handle_request-malformed s now get_time e m h = cc
  handle_request-malformed s now unknown e m h = ground (arith, h)
  handle_request-malformed s now (configure f) e m h =
      ground (arith, h, configure_malformed s f e m h)
  handle_request-malformed s now (load sync intf) e m h =
      ground (arith, h, load_malformed s sync intf e m h)
  handle_request-malformed s now (transmit delay timeout) e m h =
      ground (arith, h, transmit_malformed s now delay timeout e m h)
  handle_request-malformed s now (change_reference source timeout period) e m h =
      ground (arith, h, change_malformed s source timeout period e m h)
