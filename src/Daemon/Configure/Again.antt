-- ===== src/Daemon/Configure/Again.antt =====
-- The same configuration once more.
use usrp_playground.Prelude.{
  ℕ, ◌≡◌, refl, sym, subst, ◌∙◌, Bool, true, false, List, [], ◌∷◌, Option, some, arith, All, ok,
  >>=-eq-ok, Bool-cases, Result-cases, Option-cases, Result, inl, inr,
}
use usrp_playground.Prelude.Numbers.{value_at}
use usrp_playground.Daemon.Signal.{Samples}
use usrp_playground.Daemon.Store.{Store, assemble_tx_signal}
use usrp_playground.Daemon.Radio.{
  Tolerance, fs_atol, Floats, Radio, Refusal, validate_sampling_rate,
}
use usrp_playground.Daemon.Asked.{
  Request, Wanted, requested_channels, sorted, check_channels, validate,
}
use usrp_playground.Daemon.Tuning.{Known, Settings, known_entry, tune_channels}
use usrp_playground.Daemon.Tuning.Kept.{
  IsAsked, tune_channels-known, tune_channels-entries, validate_channels-IsAsked,
}
use usrp_playground.Daemon.Configure.Changes.{channels_changed_iff, refresh_signal-unchanged}
use usrp_playground.Daemon.Configure.{
  Streamer, Daemon, channels_changed, refresh_signal, any_off_rate, tune_rate, renew_streamer,
  is_open, set_rate, finish, retune, apply, configure_usrp,
}

module _ (fl : Floats) (sp : Samples) (usrp : Radio fl) where
  assemble_tx_signal-channels :
      (st : Store sp)
      → ((assemble_tx_signal sp st).0.sync_channels ≡ st.sync_channels)
        × ((assemble_tx_signal sp st).0.intf_channels ≡ st.intf_channels)
  unfolding assemble_tx_signal
  assemble_tx_signal-channels st = ground arith

  channels_changed-sorted : (cs : List ℕ) → channels_changed (some (sorted cs)) cs ≡ false
  channels_changed-sorted cs = (channels_changed_iff (some (sorted cs)) cs).1 refl

  renew_streamer-open :
      (cs : List ℕ) (h : usrp.Hardware) (s : Option Streamer)
      → is_open s ≡ true
      → renew_streamer fl usrp false cs h s ≡ s
  unfolding renew_streamer
  renew_streamer-open cs h s o = ground (arith, o)

  -- Every channel runs at the rate, up to the tolerance.
  abbrev pub AtRate : fl.Float → usrp.Hardware → List ℕ → Type 0
  AtRate fs h cs = All (λ (ch : ℕ). fl.is_close fs_atol (usrp.get_tx_rate ch h) fs ≡ true) cs

  AtRate-off :
      (fs : fl.Float) (h : usrp.Hardware) (cs : List ℕ)
      → AtRate fs h cs
      → any_off_rate fl usrp fs h cs ≡ false
  unfolding any_off_rate
  AtRate-off fs h [] a = refl
  AtRate-off fs h (c ∷ cs) a = rw a.0 (AtRate-off fs h cs a.1)

  module _ (is_close-refl : (tol : Tolerance) (x : fl.Float) → fl.is_close tol x x ≡ true) where
    -- A rate that is set already is not set again.
    tune_rate-same :
        (fs : fl.Float) (cs : List ℕ) (h : usrp.Hardware)
        → any_off_rate fl usrp fs h cs ≡ false
        → tune_rate fl usrp (some fs) fs cs h ≡ (h, true)
    unfolding tune_rate set_rate
    tune_rate-same fs cs h off = ground (arith, off, is_close-refl fs_atol fs)

    -- Everything that was asked is in place.
    record IsSettled (r : Request fl) (ws : List (Wanted fl)) (d : Daemon fl sp usrp) : Type 0 where
      assigned_sync : d.store.sync_channels ≡ r.sync
      assigned_intf : d.store.intf_channels ≡ r.intf
      assigned : d.channels ≡ requested_channels fl r
      settled_fs : d.current_fs ≡ some r.fs
      settled_channels : d.current_channels ≡ some (sorted (requested_channels fl r))
      streams : is_open d.tx_streamer ≡ true
      on_rate : any_off_rate fl usrp r.fs d.hardware (requested_channels fl r) ≡ false
      entered :
          All (λ (w : Wanted fl). value_at w.channel d.channel_configs ≡ some (known_entry fl w)) ws

    IsEntered : List (Wanted fl) → List (ℕ × Known fl) → Type 0
    IsEntered ws known =
        All (λ (w : Wanted fl). value_at w.channel known ≡ some (known_entry fl w)) ws

    finish-IsSettled :
        (changed : Bool) (d : Daemon fl sp usrp) (r : Request fl) (ws : List (Wanted fl))
        (tuned actual : List (ℕ × Settings fl))
        → d.store.sync_channels ≡ r.sync
        → d.store.intf_channels ≡ r.intf
        → d.channels ≡ requested_channels fl r
        → IsEntered ws d.channel_configs
        → (finish fl sp usrp changed d r tuned).1 ≡ ok actual
        → AtRate r.fs (finish fl sp usrp changed d r tuned).0.hardware (requested_channels fl r)
        → IsSettled r ws (finish fl sp usrp changed d r tuned).0
    unfolding finish IsEntered
    finish-IsSettled changed d r ws tuned actual a b c entries h rated =
        let cs = requested_channels fl r in
        let streamer = renew_streamer fl usrp changed cs d.hardware d.tx_streamer in
        elim (Bool-cases (is_open streamer)) [
          | inl o ↦ rw o (record {
            assigned_sync = a;
            assigned_intf = b;
            assigned = c;
            settled_fs = refl;
            settled_channels = refl;
            streams = o;
            on_rate = AtRate-off r.fs d.hardware cs (rw (o, finish) at rated);
            entered = entries;
          })
          | inr o ↦ absurd (ground (arith, h, o))
        ]

    -- Where no setter raises.
    retune-finish :
        (changed : Bool) (d : Daemon fl sp usrp) (r : Request fl) (ws : List (Wanted fl))
        (tuned : List (ℕ × Settings fl))
        → let rate = tune_rate fl usrp d.current_fs r.fs (requested_channels fl r) d.hardware in
          let out = tune_channels fl usrp ws rate.0 d.channel_configs [] in
          rate.1 ≡ true
          → out.2 ≡ some tuned
          → retune fl sp usrp changed d r ws
            ≡ finish fl sp usrp changed
                (record d { hardware = out.0; channel_configs = out.1 })
                r
                tuned
    unfolding retune
    retune-finish changed d r ws tuned rated q = ground (arith, rated, q)

    retune-IsSettled :
        (h0 : usrp.Hardware) (changed : Bool) (d : Daemon fl sp usrp) (r : Request fl)
        (ws : List (Wanted fl)) (actual : List (ℕ × Settings fl))
        → d.store.sync_channels ≡ r.sync
        → d.store.intf_channels ≡ r.intf
        → d.channels ≡ requested_channels fl r
        → All (IsAsked fl usrp h0 r) ws
        → (retune fl sp usrp changed d r ws).1 ≡ ok actual
        → AtRate r.fs (retune fl sp usrp changed d r ws).0.hardware (requested_channels fl r)
        → IsSettled r ws (retune fl sp usrp changed d r ws).0
    unfolding retune IsEntered
    retune-IsSettled h0 changed d r ws actual a b c asked h at_rate =
        let rate = tune_rate fl usrp d.current_fs r.fs (requested_channels fl r) d.hardware in
        let out = tune_channels fl usrp ws rate.0 d.channel_configs [] in
        elim (Bool-cases rate.1) [
          | inr no' ↦ absurd (ground (arith, h, no'))
          | inl rated ↦ elim (Option-cases out.2) [
            | inl failed ↦ absurd (ground (arith, h, rated, failed))
            | inr (tuned, q) ↦
                let same = retune-finish changed d r ws tuned rated q in
                let d' : Daemon fl sp usrp = record d {
                  hardware = out.0;
                  channel_configs = out.1;
                } in
                let entries =
                  tune_channels-entries fl usrp h0 r ws rate.0 d.channel_configs [] tuned asked q in
                subst
                  (λ (x : Daemon fl sp usrp × Result Refusal (List (ℕ × Settings fl))).
                    IsSettled r ws x.0)
                  (sym same)
                  (finish-IsSettled changed d' r ws tuned actual a b c entries
                    (subst
                      (λ (x : Daemon fl sp usrp × Result Refusal (List (ℕ × Settings fl))).
                        x.1 ≡ ok actual)
                      same h)
                    (subst
                      (λ (x : Daemon fl sp usrp × Result Refusal (List (ℕ × Settings fl))).
                        AtRate r.fs x.0.hardware (requested_channels fl r))
                      same at_rate))
          ]
        ]

    refresh_signal-channels :
        (changed : Bool) (st : Store sp)
        → ((refresh_signal sp changed st).0.sync_channels ≡ st.sync_channels)
          × ((refresh_signal sp changed st).0.intf_channels ≡ st.intf_channels)
    unfolding refresh_signal
    refresh_signal-channels changed st = ground (arith, assemble_tx_signal-channels st)

    apply-IsSettled :
        (h0 : usrp.Hardware) (d : Daemon fl sp usrp) (r : Request fl) (ws : List (Wanted fl))
        (actual : List (ℕ × Settings fl))
        → All (IsAsked fl usrp h0 r) ws
        → (apply fl sp usrp d r ws).1 ≡ ok actual
        → AtRate r.fs (apply fl sp usrp d r ws).0.hardware (requested_channels fl r)
        → IsSettled r ws (apply fl sp usrp d r ws).0
    unfolding apply
    apply-IsSettled h0 d r ws actual asked h rated =
        let cs = requested_channels fl r in
        let changed : Bool = channels_changed d.current_channels cs in
        let st : Store sp = record d.store { sync_channels = r.sync; intf_channels = r.intf } in
        elim (Result-cases (refresh_signal sp changed st).1) [
          | inl (e, q) ↦ absurd (ground (arith, h, q))
          | inr (u, q) ↦
              let kept = refresh_signal-channels changed st in
              let started : Daemon fl sp usrp = record d {
                store = (refresh_signal sp changed st).0;
                channels = cs;
              } in
              rw (q, apply)
                (retune-IsSettled h0 changed started r ws actual kept.0 kept.1 refl asked
                  (ground (arith, h, q)) (rw (q, apply) at rated))
        ]

    validate-IsAsked :
        (h0 : usrp.Hardware) (r : Request fl) (ws : List (Wanted fl))
        → validate fl usrp h0 r ≡ ok ws
        → All (IsAsked fl usrp h0 r) ws
    unfolding validate
    validate-IsAsked h0 r ws h =
        let (u, u_lem, rest) = >>=-eq-ok (check_channels fl (usrp.get_tx_num_channels h0) r) _ h in
        let (v, v_lem, last) = >>=-eq-ok (validate_sampling_rate fl usrp h0 r.fs) _ rest in
        validate_channels-IsAsked fl usrp h0 r (requested_channels fl r) ws last

    configure_usrp-settled :
        (d : Daemon fl sp usrp) (r : Request fl) (ws : List (Wanted fl))
        → IsSettled r ws d
        → validate fl usrp d.hardware r ≡ ok ws
        → (actual : List (ℕ × Settings fl)) × (configure_usrp fl sp usrp d r ≡ (d, ok actual))
    unfolding configure_usrp apply retune finish
    configure_usrp-settled d r ws s h =
        let cs = requested_channels fl r in
        let (again, tuned) =
          tune_channels-known fl usrp is_close-refl ws d.hardware d.channel_configs [] s.entered in
        (
          again,
          ground (
            arith,
            h,
            s.settled_channels,
            s.settled_fs,
            s.assigned,
            s.assigned_sync,
            s.assigned_intf,
            s.streams,
            channels_changed-sorted cs,
            refresh_signal-unchanged sp
                (record d.store { sync_channels = r.sync; intf_channels = r.intf }),
            tune_rate-same r.fs cs d.hardware s.on_rate,
            tuned,
            renew_streamer-open cs d.hardware d.tx_streamer s.streams,
          ),
        )

-- Let numbers be close to themselves, and a configuration return, with every channel at the rate asked
-- for up to the tolerance. If what the radio offers passes the same checks afterwards, the same request
-- returns again, and changes nothing: not the radio, not the signals, not the streamer and none of what
-- the daemon keeps.
pub configure_usrp-again :
    (fl : Floats) (sp : Samples) (usrp : Radio fl) (d : Daemon fl sp usrp) (r : Request fl)
    (actual : List (ℕ × Settings fl))
    → ((tol : Tolerance) (x : fl.Float) → fl.is_close tol x x ≡ true)
    → (configure_usrp fl sp usrp d r).1 ≡ ok actual
    → AtRate fl sp usrp r.fs (configure_usrp fl sp usrp d r).0.hardware (requested_channels fl r)
    → validate fl usrp (configure_usrp fl sp usrp d r).0.hardware r ≡ validate fl usrp d.hardware r
    → (again : List (ℕ × Settings fl)) × (configure_usrp fl sp usrp
          (configure_usrp fl sp usrp d r).0
          r
        ≡ ((configure_usrp fl sp usrp d r).0, ok again))
unfolding configure_usrp
configure_usrp-again fl sp usrp d r actual is_close-refl h rated same =
    elim (Result-cases (validate fl usrp d.hardware r)) [
      | inl (e, q) ↦ absurd (ground (arith, h, q))
      | inr (ws, q) ↦
          let d' : Daemon fl sp usrp = (configure_usrp fl sp usrp d r).0 in
          let applied : d' ≡ (apply fl sp usrp d r ws).0 = ground (arith, q) in
          let settled =
            apply-IsSettled fl sp usrp is_close-refl d.hardware d r ws actual
              (validate-IsAsked fl sp usrp is_close-refl d.hardware r ws q) (ground (arith, h, q))
              (rw (q, configure_usrp) at rated) in
          configure_usrp-settled fl sp usrp is_close-refl d' r ws
            (subst (IsSettled fl sp usrp is_close-refl r ws) (sym applied) settled) (same ∙ q)
    ]
