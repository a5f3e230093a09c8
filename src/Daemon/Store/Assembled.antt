-- ===== src/Daemon/Store/Assembled.antt =====
-- The matrix that is transmitted, against the signals and channel lists it is made of.
use usrp_playground.Prelude.{
  ℕ, ◌+◌, ◌-◌, ◌≡◌, ◌≤◌, ◌<◌, refl, ap, ◌∙◌, ◌⊎◌, true, false, List, [], ◌∷◌, ◌++◌, Option, none,
  some, length, max, get_elem?, arith, ok, inl, inr, Bool-cases,
}
use usrp_playground.Prelude.Numbers.{is_member, AllDifferent, IsDisjoint}
use usrp_playground.Daemon.Signal.{Samples}
use usrp_playground.Daemon.Store.{
  Store, len, max_channel, zeros, zero_rows, place, place_both, assemble_tx_signal,
}
use usrp_playground.Daemon.Store.Rows.{
  row_of, over_row, get_elem?-place, get_elem?-zero_rows, drop-zeros, row_of-none,
}

IsDisjoint-member :
    (ms ns : List ℕ) (k : ℕ) → IsDisjoint ms ns → is_member k ms ≡ true → is_member k ns ≡ false
unfolding is_member
IsDisjoint-member [] ns k d h = cc
IsDisjoint-member (m ∷ ms) ns k d h = ground (arith, h, d.0, IsDisjoint-member ms ns k d.1)

module _ (sp : Samples) where
  abbrev pub samples_of : Store sp → ℕ
  samples_of st = max (len sp st.sync_signal_data) (len sp st.intf_signal_data)

  -- A channel sends the row of the signal that it belongs to, and zeros when that is over. A channel
  -- of neither signal sends zeros.
  abbrev pub padded : ℕ → Option (List sp.Sample) → List sp.Sample
  padded n none = zeros sp n
  padded n (some xs) = xs ++ zeros sp (n - length xs)

  abbrev pub either_row :
      Option (List sp.Sample) → Option (List sp.Sample) → Option (List sp.Sample)
  either_row none o = o
  either_row (some xs) o = some xs

  abbrev pub wanted_row : Store sp → ℕ → List sp.Sample
  wanted_row st k = padded (samples_of st) (
      either_row (row_of sp st.intf_signal_data st.intf_channels k)
        (row_of sp st.sync_signal_data st.sync_channels k))

  over_zeros :
      (n : ℕ) (o : Option (List sp.Sample)) → over_row sp o (some (zeros sp n)) ≡ some (padded n o)
  over_zeros n none = refl
  over_zeros n (some xs) = ap (λ t. some (xs ++ t)) (drop-zeros sp (length xs) n)

  both_over :
      (n : ℕ) (a b : Option (List sp.Sample))
      → (a ≡ none) ⊎ (b ≡ none)
      → over_row sp b (over_row sp a (some (zeros sp n))) ≡ some (padded n (either_row b a))
  both_over n a none h = over_zeros n a
  both_over n none (some ys) h = over_zeros n (some ys)
  both_over n (some xs) (some ys) h = ground (arith, h)

  one_is_none :
      (st : Store sp) (k : ℕ)
      → IsDisjoint st.sync_channels st.intf_channels
      → (row_of sp st.sync_signal_data st.sync_channels k ≡ none)
        ⊎ (row_of sp st.intf_signal_data st.intf_channels k ≡ none)
  one_is_none st k d = elim (Bool-cases (is_member k st.sync_channels)) [
    | inl here ↦ inr (
        row_of-none sp st.intf_signal_data st.intf_channels k
          (IsDisjoint-member st.sync_channels st.intf_channels k d here))
    | inr away ↦ inl (row_of-none sp st.sync_signal_data st.sync_channels k away)
  ]

  get_elem?-place_both :
      (st : Store sp) (tx : List (List sp.Sample)) (k : ℕ)
      → AllDifferent st.sync_channels
      → AllDifferent st.intf_channels
      → (place_both sp st tx).1 ≡ ok tt
      → get_elem? (place_both sp st tx).0 k
        ≡ over_row sp
            (row_of sp st.intf_signal_data st.intf_channels k)
            (over_row sp (row_of sp st.sync_signal_data st.sync_channels k) (get_elem? tx k))
  unfolding place_both
  get_elem?-place_both st tx k d e h = ground (
    arith,
    h,
    get_elem?-place sp st.sync_signal_data st.sync_channels tx k d,
    get_elem?-place sp st.intf_signal_data st.intf_channels
        (place sp st.sync_signal_data st.sync_channels tx).0 k e,
  )

  abbrev blank : Store sp → List (List sp.Sample)
  blank st =
      zero_rows sp (max_channel sp (st.sync_channels ++ st.intf_channels) + 1) (samples_of st)

  assembled :
      (st : Store sp)
      → (assemble_tx_signal sp st).1 ≡ ok tt
      → ((assemble_tx_signal sp st).0.tx_signal ≡ some (place_both sp st (blank st)).0)
        × ((place_both sp st (blank st)).1 ≡ ok tt)
        × (0 < samples_of st)
  unfolding assemble_tx_signal
  assembled st h = ground (arith, h)

  get_elem?-blank :
      (st : Store sp) (k : ℕ)
      → AllDifferent st.sync_channels
      → AllDifferent st.intf_channels
      → IsDisjoint st.sync_channels st.intf_channels
      → (place_both sp st (blank st)).1 ≡ ok tt
      → k ≤ max_channel sp (st.sync_channels ++ st.intf_channels)
      → get_elem? (place_both sp st (blank st)).0 k ≡ some (wanted_row st k)
  get_elem?-blank st k ds di dd h le =
      get_elem?-place_both st (blank st) k ds di h
      ∙ rw
          (get_elem?-zero_rows sp (max_channel sp (st.sync_channels ++ st.intf_channels) + 1)
            (samples_of st) k (omega arith))
          (both_over (samples_of st) _ _ (one_is_none st k dd))

  -- Where the channels of the two lists are all different, a run of `_assemble_tx_signal` that returns
  -- leaves a `tx_signal` of at least one sample. Each of its rows up to the largest channel is what its
  -- channel is to send: a channel of a list has the one-dimensional signal of that list, or its own row
  -- of the two-dimensional one, with zeros up to the length of the longer signal; any other has zeros.
  pub assemble_tx_signal_lem :
      (st : Store sp)
      → AllDifferent st.sync_channels
      → AllDifferent st.intf_channels
      → IsDisjoint st.sync_channels st.intf_channels
      → (assemble_tx_signal sp st).1 ≡ ok tt
      → (tx : List (List sp.Sample)) × ((assemble_tx_signal sp st).0.tx_signal ≡ some tx)
        × (0 < samples_of st)
        × ((k : ℕ)
            → k ≤ max_channel sp (st.sync_channels ++ st.intf_channels)
            → get_elem? tx k ≡ some (wanted_row st k))
  assemble_tx_signal_lem st ds di dd h =
      let (is_tx, placed, samples) = assembled st h in
      (_, is_tx, samples, λ k le. get_elem?-blank st k ds di dd placed le)
