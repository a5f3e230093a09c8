-- ===== src/Daemon/Configure/Refused.antt =====
-- What a configuration that raises leaves.
use usrp_playground.Prelude.{
  ℕ, ◌≡◌, ◌⊎◌, refl, Bool, false, List, [], ◌∷◌, Option, none, some, ◌==◌, arith, length, ok, err,
  raise_if-passed, Bool-cases, Option-cases, >>=-eq-ok, Result-cases, inl, inr,
}
use usrp_playground.Daemon.Signal.{Samples}
use usrp_playground.Daemon.Store.{Store, is_nil, assemble_tx_signal}
use usrp_playground.Daemon.Radio.{Floats, Radio, Refusal, no_streamer, radio_failed}
use usrp_playground.Daemon.Asked.{Request, Wanted, requested_channels, check_channels, validate}
use usrp_playground.Daemon.Tuning.{Settings, tune_channels}
use usrp_playground.Daemon.Configure.{
  Streamer, Daemon, channels_changed, is_open, refresh_signal, tune_rate, renew_streamer, finish,
  retune, apply, configure_usrp,
}
use usrp_playground.Daemon.Configure.Changes.{HasSamples, refresh_signal-ok}

module _ (fl : Floats) (sp : Samples) (usrp : Radio fl) where
  is_open-none : (s : Option Streamer) → is_open s ≡ false → s ≡ none
  unfolding is_open
  is_open-none none h = refl
  is_open-none (some s) h = cc

  is_nil-length : (cs : List ℕ) → (length cs == 0) ≡ false → is_nil sp cs ≡ false
  unfolding is_nil
  is_nil-length [] h = cc
  is_nil-length (c ∷ cs) h = refl

  check_channels-is_nil :
      (n : ℕ) (r : Request fl) {u : Unit {0}}
      → check_channels fl n r ≡ ok u
      → is_nil sp (requested_channels fl r) ≡ false
  unfolding check_channels
  check_channels-is_nil n r h = is_nil-length (requested_channels fl r) (raise_if-passed _ _ _ h).0

  validate-is_nil :
      (h : usrp.Hardware) (r : Request fl) (ws : List (Wanted fl))
      → validate fl usrp h r ≡ ok ws
      → is_nil sp (requested_channels fl r) ≡ false
  unfolding validate
  validate-is_nil h r ws v =
      let (u, u_lem, rest) = >>=-eq-ok (check_channels fl (usrp.get_tx_num_channels h) r) _ v in
      check_channels-is_nil (usrp.get_tx_num_channels h) r u_lem

  -- The streamer is gone, and the daemon does not take the new configuration for the current one.
  abbrev pub LosesStreamer : Refusal → Daemon fl sp usrp → Daemon fl sp usrp → Type 0
  LosesStreamer e d d' =
      (e ≡ no_streamer)
      × (d'.tx_streamer ≡ none)
      × (d'.current_channels ≡ d.current_channels)
      × (d'.current_fs ≡ d.current_fs)

  -- The channels are those of the new request, while the streamer and what is kept of the last
  -- configuration are the old ones.
  abbrev pub StopsHalfway : Refusal → Request fl → Daemon fl sp usrp → Daemon fl sp usrp → Type 0
  StopsHalfway e r d d' =
      (e ≡ radio_failed)
      × (d'.channels ≡ requested_channels fl r)
      × (d'.store.sync_channels ≡ r.sync)
      × (d'.store.intf_channels ≡ r.intf)
      × (d'.tx_streamer ≡ d.tx_streamer)
      × (d'.current_channels ≡ d.current_channels)
      × (d'.current_fs ≡ d.current_fs)

  refresh_signal-channels :
      (changed : Bool) (st : Store sp)
      → ((refresh_signal sp changed st).0.sync_channels ≡ st.sync_channels)
        × ((refresh_signal sp changed st).0.intf_channels ≡ st.intf_channels)
  unfolding refresh_signal assemble_tx_signal
  refresh_signal-channels changed st = ground arith

  finish-error :
      (changed : Bool) (d : Daemon fl sp usrp) (r : Request fl) (actual : List (ℕ × Settings fl))
      (e : Refusal)
      → (finish fl sp usrp changed d r actual).1 ≡ err e
      → LosesStreamer e d (finish fl sp usrp changed d r actual).0
  unfolding finish
  finish-error changed d r actual e h =
      let cs = requested_channels fl r in
      ground (arith, h, is_open-none (renew_streamer fl usrp changed cs d.hardware d.tx_streamer))

  retune-error :
      (changed : Bool) (d : Daemon fl sp usrp) (r : Request fl) (ws : List (Wanted fl))
      (e : Refusal)
      → d.channels ≡ requested_channels fl r
      → d.store.sync_channels ≡ r.sync
      → d.store.intf_channels ≡ r.intf
      → (retune fl sp usrp changed d r ws).1 ≡ err e
      → LosesStreamer e d (retune fl sp usrp changed d r ws).0
        ⊎ StopsHalfway e r d (retune fl sp usrp changed d r ws).0
  unfolding retune
  retune-error changed d r ws e a b c h =
      let rate = tune_rate fl usrp d.current_fs r.fs (requested_channels fl r) d.hardware in
      let out = tune_channels fl usrp ws rate.0 d.channel_configs [] in
      elim (Bool-cases rate.1) [
        | inr n ↦ inr (ground (arith, h, n, a, b, c))
        | inl y ↦ elim (Option-cases out.2) [
          | inl n ↦ inr (ground (arith, h, y, n, a, b, c))
          | inr (actual, q) ↦
              let tuned : Daemon fl sp usrp = record d {
                hardware = out.0;
                channel_configs = out.1;
              } in
              inl (rw (y, q) (finish-error changed tuned r actual e (ground (arith, h, y, q))))
        ]
      ]

  -- Where a loaded signal has samples, a configuration that raises leaves one of three states. All is as
  -- it was; or the streamer could not be opened, and there is none; or a setter of the radio raised: the
  -- channels are then those of the request, while the streamer is the old one. The rate and the channels
  -- of the last configuration are kept in each.
  pub configure_usrp-error :
      (d : Daemon fl sp usrp) (r : Request fl) (e : Refusal)
      → HasSamples sp d.store.sync_signal_data
      → HasSamples sp d.store.intf_signal_data
      → (configure_usrp fl sp usrp d r).1 ≡ err e
      → ((configure_usrp fl sp usrp d r).0 ≡ d)
        ⊎ LosesStreamer e d (configure_usrp fl sp usrp d r).0
        ⊎ StopsHalfway e r d (configure_usrp fl sp usrp d r).0
  unfolding configure_usrp apply
  configure_usrp-error d r e a b h = elim (Result-cases (validate fl usrp d.hardware r)) [
    | inl (e', q) ↦ inl (ground (arith, q))
    | inr (ws, q) ↦
        let cs = requested_channels fl r in
        let changed : Bool = channels_changed d.current_channels cs in
        let st : Store sp = record d.store { sync_channels = r.sync; intf_channels = r.intf } in
        let started : Daemon fl sp usrp = record d {
          store = (refresh_signal sp changed st).0;
          channels = cs;
        } in
        let fresh = refresh_signal-ok sp changed st a b (validate-is_nil d.hardware r ws q) in
        let (s, i) = refresh_signal-channels changed st in
        inr (
          rw (q, configure_usrp)
            (rw (fresh, apply)
              (retune-error changed started r ws e refl s i (ground (arith, h, q, fresh)))))
  ]
