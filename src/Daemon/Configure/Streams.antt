-- ===== src/Daemon/Configure/Streams.antt =====
-- The streamer of a configuration.
use usrp_playground.Prelude.{
  ℕ, ◌≡◌, ◌≢◌, refl, sym, ap, ◌∙◌, false, List, [], Option, none, some, arith, ok, Bool-cases,
  Result-cases, Option-cases, inl, inr,
}
use usrp_playground.Daemon.Signal.{Samples}
use usrp_playground.Daemon.Store.{Store}
use usrp_playground.Daemon.Radio.{Floats, Radio}
use usrp_playground.Daemon.Asked.{Request, Wanted, requested_channels, sorted, validate}
use usrp_playground.Daemon.Tuning.{Settings, tune_channels}
use usrp_playground.Daemon.Configure.Changes.{channels_changed_iff, refresh_signal-unchanged}
use usrp_playground.Daemon.Configure.{
  Streamer, Daemon, channels_changed, open_streamer, is_open, refresh_signal, tune_rate,
  renew_streamer, finish, retune, apply, configure_usrp,
}

module _ (fl : Floats) (sp : Samples) (usrp : Radio fl) where
  -- A streamer is open on the channels of the last configuration, whatever their order.
  abbrev pub StreamsOn : Option Streamer → Option (List ℕ) → Type 0
  StreamsOn none current = Unit
  StreamsOn (some s) current = current ≡ some (sorted s.stream_channels)

  abbrev pub IsStreaming : Daemon fl sp usrp → Type 0
  IsStreaming d = StreamsOn d.tx_streamer d.current_channels

  is_open-StreamsOn :
      (s : Option Streamer) (current : Option (List ℕ)) → is_open s ≡ false → StreamsOn s current
  unfolding is_open
  is_open-StreamsOn none current h = tt
  is_open-StreamsOn (some s) current h = absurd (ground (arith, h))

  open_streamer-StreamsOn :
      (cs : List ℕ) (n : Option ℕ) → StreamsOn (open_streamer cs n) (some (sorted cs))
  unfolding open_streamer
  open_streamer-StreamsOn cs none = tt
  open_streamer-StreamsOn cs (some n) = refl

  renew_streamer-StreamsOn :
      (cs : List ℕ) (h : usrp.Hardware) (s : Option Streamer) (current : Option (List ℕ))
      → StreamsOn s current
      → StreamsOn (renew_streamer fl usrp (channels_changed current cs) cs h s) (some (sorted cs))
  unfolding renew_streamer
  renew_streamer-StreamsOn cs h none current on = elim (Bool-cases (channels_changed current cs)) [
    | inl c ↦ rw c (open_streamer-StreamsOn cs (usrp.get_tx_stream cs h))
    | inr c ↦ rw c (open_streamer-StreamsOn cs (usrp.get_tx_stream cs h))
  ]
  renew_streamer-StreamsOn cs h (some s) current on =
      elim (Bool-cases (channels_changed current cs)) [
        | inl c ↦ rw c (open_streamer-StreamsOn cs (usrp.get_tx_stream cs h))
        | inr c ↦ rw c (sym ((channels_changed_iff current cs).0 c) ∙ on)
      ]

  retune-IsStreaming :
      (d : Daemon fl sp usrp) (r : Request fl) (ws : List (Wanted fl))
      → IsStreaming d
      → IsStreaming
          (retune fl sp usrp
            (channels_changed d.current_channels (requested_channels fl r))
            d
            r
            ws).0
  unfolding retune finish
  retune-IsStreaming d r ws on =
      let cs = requested_channels fl r in
      let rate = tune_rate fl usrp d.current_fs r.fs cs d.hardware in
      let out = tune_channels fl usrp ws rate.0 d.channel_configs [] in
      let changed = channels_changed d.current_channels cs in
      let streamer : Option Streamer = renew_streamer fl usrp changed cs out.0 d.tx_streamer in
      elim (Bool-cases rate.1) [
        | inr no' ↦ rw (no', retune) on
        | inl rated ↦ elim (Option-cases out.2) [
          | inl failed ↦ rw (rated, failed, retune) on
          | inr (tuned, q) ↦ elim (Bool-cases (is_open streamer)) [
            | inl o ↦
                rw (rated, q, o)
                  (renew_streamer-StreamsOn cs out.0 d.tx_streamer d.current_channels on)
            | inr o ↦ rw (rated, q, o) (is_open-StreamsOn streamer d.current_channels o)
          ]
        ]
      ]

  -- The streamer always stands on the channels of the last configuration that returned, up to their
  -- order: `configure_usrp` keeps this, whether it returns or raises.
  pub configure_usrp-IsStreaming :
      (d : Daemon fl sp usrp) (r : Request fl)
      → IsStreaming d
      → IsStreaming (configure_usrp fl sp usrp d r).0
  unfolding configure_usrp apply
  configure_usrp-IsStreaming d r on = elim (Result-cases (validate fl usrp d.hardware r)) [
    | inl (e, q) ↦ rw (q, configure_usrp) on
    | inr (ws, q) ↦
        let cs = requested_channels fl r in
        let changed = channels_changed d.current_channels cs in
        let st : Store sp = record d.store { sync_channels = r.sync; intf_channels = r.intf } in
        let started : Daemon fl sp usrp = record d {
          store = (refresh_signal sp changed st).0;
          channels = cs;
        } in
        elim (Result-cases (refresh_signal sp changed st).1) [
          | inl (e, p) ↦ rw (q, configure_usrp) (rw (p, apply) on)
          | inr (u, p) ↦ rw (q, configure_usrp) (rw (p, apply) (retune-IsStreaming started r ws on))
        ]
  ]

  -- Let the streamer stand on channels that are those of a new request, in another order. A configuration
  -- that returns then keeps the streamer as it is, while the rows of the signal are taken in the new
  -- order: the i-th channel of the streamer is not the i-th of the channels.
  pub configure_usrp-reordered :
      (d : Daemon fl sp usrp) (r : Request fl) (actual : List (ℕ × Settings fl)) (s : Streamer)
      → d.tx_streamer ≡ some s
      → d.current_channels ≡ some (sorted s.stream_channels)
      → sorted (requested_channels fl r) ≡ sorted s.stream_channels
      → requested_channels fl r ≢ s.stream_channels
      → (configure_usrp fl sp usrp d r).1 ≡ ok actual
      → ((configure_usrp fl sp usrp d r).0.tx_streamer ≡ some s)
        × ((configure_usrp fl sp usrp d r).0.channels ≢ s.stream_channels)
  unfolding configure_usrp apply retune finish renew_streamer
  configure_usrp-reordered d r actual s a b c ne h =
      let cs = requested_channels fl r in
      let st : Store sp = record d.store { sync_channels = r.sync; intf_channels = r.intf } in
      let unchanged : channels_changed d.current_channels cs ≡ false =
        (channels_changed_iff d.current_channels cs).1 (b ∙ ap some (sym c)) in
      elim (Result-cases (validate fl usrp d.hardware r)) [
        | inl (e, q) ↦ absurd (ground (arith, h, q))
        | inr (ws, q) ↦ ground (arith, q, a, ne, unchanged, refresh_signal-unchanged sp st)
      ]
