-- ===== src/Daemon/Configure/Changes.antt =====
-- Whether the channels changed, and what becomes of a loaded signal.
use usrp_playground.Prelude.{
  ℕ, ◌≡◌, ◌↔◌, ◌+◌, ◌<◌, refl, Bool, true, false, ◌||◌, List, [], ◌∷◌, ◌++◌, Option, none, some,
  arith, max, ok,
}
use usrp_playground.Daemon.Signal.{Samples, Signal, flat, rows}
use usrp_playground.Daemon.Store.{
  Store, len, place, place_both, is_nil, zero_rows, max_channel, assemble_tx_signal,
}
use usrp_playground.Daemon.Asked.{sorted, same_list}
use usrp_playground.Daemon.Configure.{channels_changed, incompatible, has_signal, refresh_signal}

same_list_iff : (ms ns : List ℕ) → (same_list ms ns ≡ true) ↔ (ms ≡ ns)
unfolding same_list
same_list_iff [] [] = ground arith
same_list_iff [] (n ∷ ns) = ground arith
same_list_iff (m ∷ ms) [] = ground arith
same_list_iff (m ∷ ms) (n ∷ ns) = ground (arith, same_list_iff ms ns)

pub channels_changed_iff :
    (current : Option (List ℕ)) (cs : List ℕ)
    → (channels_changed current cs ≡ false) ↔ (current ≡ some (sorted cs))
unfolding channels_changed
channels_changed_iff none cs = ground arith
channels_changed_iff (some old) cs = ground (arith, same_list_iff old (sorted cs))

pub refresh_signal-unchanged :
    (sp : Samples) (st : Store sp) → refresh_signal sp false st ≡ (st, ok tt)
unfolding refresh_signal
refresh_signal-unchanged sp st = ground arith

module _ (sp : Samples) where
  -- A signal that is there has samples.
  abbrev pub HasSamples : Option (Signal sp) → Type 0
  HasSamples none = Unit
  HasSamples (some s) = 0 < len sp (some s)

  place-ok :
      (s : Option (Signal sp)) (cs : List ℕ) (tx : List (List sp.Sample))
      → incompatible sp s cs ≡ false
      → (place sp s cs tx).1 ≡ ok tt
  unfolding place incompatible
  place-ok none cs tx h = refl
  place-ok (some (flat xs)) [] tx h = refl
  place-ok (some (flat xs)) (c ∷ cs) tx h = refl
  place-ok (some (rows cols rs)) [] tx h = refl
  place-ok (some (rows cols rs)) (c ∷ cs) tx h = ground (arith, h)

  place_both-ok :
      (st : Store sp) (tx : List (List sp.Sample))
      → incompatible sp st.sync_signal_data st.sync_channels ≡ false
      → incompatible sp st.intf_signal_data st.intf_channels ≡ false
      → (place_both sp st tx).1 ≡ ok tt
  unfolding place_both
  place_both-ok st tx a b = ground (
    arith,
    place-ok st.sync_signal_data st.sync_channels tx a,
    place-ok st.intf_signal_data st.intf_channels
        (place sp st.sync_signal_data st.sync_channels tx).0 b,
  )

  len-positive :
      (a b : Option (Signal sp))
      → HasSamples a
      → HasSamples b
      → (has_signal sp a || has_signal sp b) ≡ true
      → 0 < max (len sp a) (len sp b)
  unfolding has_signal
  len-positive none none h g e = cc
  len-positive none (some t) h g e = omega arith
  len-positive (some s) b h g e = omega arith

  assemble_tx_signal-ok :
      (st : Store sp)
      → 0 < max (len sp st.sync_signal_data) (len sp st.intf_signal_data)
      → is_nil sp (st.sync_channels ++ st.intf_channels) ≡ false
      → incompatible sp st.sync_signal_data st.sync_channels ≡ false
      → incompatible sp st.intf_signal_data st.intf_channels ≡ false
      → (assemble_tx_signal sp st).1 ≡ ok tt
  unfolding assemble_tx_signal
  assemble_tx_signal-ok st h n a b = ground (
    arith,
    h,
    n,
    place_both-ok st
        (zero_rows sp (max_channel sp (st.sync_channels ++ st.intf_channels) + 1)
          (max (len sp st.sync_signal_data) (len sp st.intf_signal_data)))
        a b,
  )

  -- A loaded signal is never in the way of new channels.
  pub refresh_signal-ok :
      (changed : Bool) (st : Store sp)
      → HasSamples st.sync_signal_data
      → HasSamples st.intf_signal_data
      → is_nil sp (st.sync_channels ++ st.intf_channels) ≡ false
      → (refresh_signal sp changed st).1 ≡ ok tt
  unfolding refresh_signal
  refresh_signal-ok changed st a b n =
      ground (
        arith,
        n,
        len-positive st.sync_signal_data st.intf_signal_data a b,
        assemble_tx_signal-ok st,
      )
