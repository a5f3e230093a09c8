-- ===== src/Daemon/Transmit/Burst.antt =====
-- From the signals to the antennas: `_assemble_tx_signal`, then `transmit_with_delay`.
use usrp_playground.Prelude.{
  ℕ, zero, suc, ◌-◌, ◌≡◌, ◌≤◌, refl, sym, ap, subst, ◌∙◌, List, [], ◌∷◌, ◌++◌, Option, none, some,
  length, length-append, max, get_elem?, ◌==◌, if-both, arith, ok, All,
}
use usrp_playground.Prelude.Numbers.{is_member, AllDifferent, IsDisjoint}
use usrp_playground.Daemon.Signal.{Samples, Signal, flat, rows}
use usrp_playground.Daemon.Store.{Store, len, max_channel, zeros, assemble_tx_signal}
use usrp_playground.Daemon.Store.Rows.{row_at, row_of}
use usrp_playground.Daemon.Store.Assembled.{
  samples_of, padded, either_row, wanted_row, assemble_tx_signal_lem,
}
use usrp_playground.Daemon.Transmit.{Send, Outcome, sent, n_columns, transmit_with_delay}
use usrp_playground.Daemon.Transmit.Delivery.{delivered, delivered-transmit_with_delay}

module _ (sp : Samples) where
  -- A two-dimensional array is rectangular.
  abbrev pub IsArray : Option (Signal sp) → Type 0
  IsArray none = Unit
  IsArray (some (flat xs)) = Unit
  IsArray (some (rows cols rs)) = All (λ r. length r ≡ cols) rs

  abbrev IsWithin : ℕ → Option (List sp.Sample) → Type 0
  IsWithin n none = Unit
  IsWithin n (some xs) = length xs ≤ n

  row_at-IsWithin :
      (rs : List (List sp.Sample)) (cs : List ℕ) (k cols : ℕ)
      → All (λ r. length r ≡ cols) rs
      → IsWithin cols (row_at sp rs cs k)
  unfolding row_at
  row_at-IsWithin [] cs k cols all = tt
  row_at-IsWithin (r ∷ rs) [] k cols all = tt
  row_at-IsWithin (r ∷ rs) (c ∷ cs) k cols all =
      if-both (IsWithin cols) (c == k) (omega (arith, all.0)) (row_at-IsWithin rs cs k cols all.1)

  row_of-IsWithin :
      (s : Option (Signal sp)) (cs : List ℕ) (k : ℕ)
      → IsArray s
      → IsWithin (len sp s) (row_of sp s cs k)
  unfolding row_of len
  row_of-IsWithin none cs k all = tt
  row_of-IsWithin (some (flat xs)) cs k all =
      if-both (IsWithin (length xs)) (is_member k cs) (omega arith) tt
  row_of-IsWithin (some (rows cols rs)) cs k all = row_at-IsWithin rs cs k cols all

  length-zeros : (n : ℕ) → length (zeros sp n) ≡ n
  unfolding zeros
  length-zeros zero = refl
  length-zeros (suc n) = ap suc (length-zeros n)

  length-padded :
      (n a b : ℕ) (o q : Option (List sp.Sample))
      → IsWithin a o
      → IsWithin b q
      → n ≡ max b a
      → length (padded sp n (either_row sp o q)) ≡ n
  length-padded n a b none none h g e = length-zeros n
  length-padded n a b none (some ys) h g e =
      omega (arith, length-append ys (zeros sp (n - length ys)), length-zeros)
  length-padded n a b (some xs) q h g e =
      omega (arith, length-append xs (zeros sp (n - length xs)), length-zeros)

  length-wanted_row :
      (st : Store sp) (k : ℕ)
      → IsArray st.sync_signal_data
      → IsArray st.intf_signal_data
      → length (wanted_row sp st k) ≡ samples_of sp st
  length-wanted_row st k a b =
      length-padded (samples_of sp st) (len sp st.intf_signal_data) (len sp st.sync_signal_data) _ _
        (row_of-IsWithin st.intf_signal_data st.intf_channels k b)
        (row_of-IsWithin st.sync_signal_data st.sync_channels k a) refl

  n_columns-eq :
      (tx : List (List sp.Sample)) (row : List sp.Sample)
      → get_elem? tx 0 ≡ some row
      → n_columns sp tx ≡ length row
  unfolding n_columns
  n_columns-eq [] row h = cc
  n_columns-eq (r ∷ rs) row h = ground (arith, h)

  get_elem?-le-max_channel :
      (cs : List ℕ) (j c : ℕ) → get_elem? cs j ≡ some c → c ≤ max_channel sp cs
  unfolding max_channel
  get_elem?-le-max_channel [] j c h = cc
  get_elem?-le-max_channel (d ∷ cs) zero c h = ground (arith, h)
  get_elem?-le-max_channel (d ∷ cs) (suc j) c h = omega (arith, get_elem?-le-max_channel cs j c h)

module _ (sp : Samples) (accept : ℕ → ℕ → ℕ) (chunk_size : ℕ) (st : Store sp)
    (now delay m : ℕ) where
  -- A burst of the signals in the store, on the channels that they belong to.
  abbrev pub burst_of : Option (List (List sp.Sample)) → List (Send sp) × Outcome
  burst_of tx_signal =
      transmit_with_delay sp accept (some chunk_size) tx_signal
        (st.sync_channels ++ st.intf_channels) now delay

  abbrev pub IsComplete : Option (List (List sp.Sample)) → Type 0
  IsComplete tx_signal =
      (m ≡ samples_of sp st)
      × ((j c : ℕ)
          → get_elem? (st.sync_channels ++ st.intf_channels) j ≡ some c
          → delivered sp j (burst_of tx_signal).0 ≡ wanted_row sp st c)

  burst-IsComplete :
      (tx : List (List sp.Sample))
      → IsArray sp st.sync_signal_data
      → IsArray sp st.intf_signal_data
      → ((k : ℕ)
          → k ≤ max_channel sp (st.sync_channels ++ st.intf_channels)
          → get_elem? tx k ≡ some (wanted_row sp st k))
      → ((r k : ℕ) → accept r k ≤ k)
      → (burst_of (some tx)).1 ≡ sent m
      → IsComplete (some tx)
  burst-IsComplete tx a b row_lem bounded h =
      let channels = st.sync_channels ++ st.intf_channels in
      let columns =
        n_columns-eq sp tx _ (row_lem 0 (omega arith)) ∙ length-wanted_row sp st 0 a b in
      let (m_lem, each) =
        delivered-transmit_with_delay sp accept chunk_size tx channels now delay m bounded h in
      (
        m_lem ∙ columns,
        λ j c g.
            each j c (wanted_row sp st c) g (row_lem c (get_elem?-le-max_channel sp channels j c g))
              (length-wanted_row sp st c a b ∙ sym columns),
      )

  -- Let the channels of the two lists be all different, the two-dimensional signals be rectangular,
  -- `_assemble_tx_signal` return, and `send` return no more than it is offered. A burst on these
  -- channels that returns has sent as many samples as the longer signal has, and over all calls of `send`
  -- the streamer accepted for each channel exactly what that channel is to send: the signal of its list,
  -- or its row of a two-dimensional one, followed by zeros.
  pub burst-assemble_tx_signal :
      AllDifferent st.sync_channels
      → AllDifferent st.intf_channels
      → IsDisjoint st.sync_channels st.intf_channels
      → IsArray sp st.sync_signal_data
      → IsArray sp st.intf_signal_data
      → (assemble_tx_signal sp st).1 ≡ ok tt
      → ((r k : ℕ) → accept r k ≤ k)
      → (burst_of (assemble_tx_signal sp st).0.tx_signal).1 ≡ sent m
      → IsComplete (assemble_tx_signal sp st).0.tx_signal
  burst-assemble_tx_signal ds di dd a b made bounded h =
      let (tx, is_tx, samples, row_lem) = assemble_tx_signal_lem sp st ds di dd made in
      subst IsComplete (sym is_tx)
        (burst-IsComplete tx a b row_lem bounded (sym (ap (λ t. (burst_of t).1) is_tx) ∙ h))
