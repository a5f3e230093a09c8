-- ===== src/Daemon/Store.antt =====
-- usrp_testbed_library/tx_daemon.py: `load_signal` and `_assemble_tx_signal`. Channel lists that are
-- `None` before the first configuration are empty here: the code only asks whether there are channels.
pub mod Rows
pub mod Assembled
pub mod Failure
use usrp_playground.Prelude.{
  ℕ, zero, suc, ◌+◌, ◌-◌, Bool, true, false, not, ◌&&◌, ◌||◌, List, [], ◌∷◌, ◌++◌, Option, none,
  some, length, take, drop, max, ltb, ◌==◌, if◌then◌else◌, Result, ok, err, ◌>>=◌, ◌>>◌, raise_if,
}
use usrp_playground.Daemon.Signal.{
  Samples, Problem, not_configured, no_path, no_sync_channels, no_intf_channels, no_signal,
  no_channels, wrong_rows, File, Signal, flat, rows, load_signal_file,
}

module _ (sp : Samples) where
  -- `tx_signal` has a row for each channel up to the largest one that is used.
  pub record Store : Type 0 where
    pub sync_channels : List ℕ
    pub intf_channels : List ℕ
    pub sync_signal_data : Option (Signal sp)
    pub intf_signal_data : Option (Signal sp)
    pub tx_signal : Option (List (List sp.Sample))
    pub signal_samples : ℕ

  -- `_len`.
  unfoldable pub len : Option (Signal sp) → ℕ
  len none = 0
  len (some (flat xs)) = length xs
  len (some (rows cols rs)) = cols

  unfoldable pub max_channel : List ℕ → ℕ
  max_channel [] = 0
  max_channel (c ∷ cs) = max c (max_channel cs)

  unfoldable pub zeros : ℕ → List sp.Sample
  zeros zero = []
  zeros (suc n) = sp.zero_sample ∷ zeros n

  unfoldable pub zero_rows : ℕ → ℕ → List (List sp.Sample)
  unfolding zeros
  zero_rows zero n = []
  zero_rows (suc k) n = zeros n ∷ zero_rows k n

  -- `tx_signal[ch, :length] = data`.
  unfoldable pub set_row : ℕ → List sp.Sample → List (List sp.Sample) → List (List sp.Sample)
  set_row ch xs [] = []
  set_row zero xs (r ∷ rs) = (xs ++ drop (length xs) r) ∷ rs
  set_row (suc ch) xs (r ∷ rs) = r ∷ set_row ch xs rs

  unfoldable pub place_flat :
      List sp.Sample → List ℕ → List (List sp.Sample) → List (List sp.Sample)
  unfolding set_row
  place_flat xs [] tx = tx
  place_flat xs (c ∷ cs) tx = place_flat xs cs (set_row c xs tx)

  unfoldable pub place_rows :
      List (List sp.Sample) → List ℕ → List (List sp.Sample) → List (List sp.Sample)
  unfolding set_row
  place_rows (r ∷ rs) (c ∷ cs) tx = place_rows rs cs (set_row c r tx)
  place_rows _ _ tx = tx

  -- `_place`, with `tx_signal` as it is left behind.
  unfoldable pub place :
      Option (Signal sp)
      → List ℕ
      → List (List sp.Sample)
      → List (List sp.Sample) × Result Problem (Unit {0})
  unfolding place_flat place_rows
  place none cs tx = (tx, ok tt)
  place (some s) [] tx = (tx, ok tt)
  place (some (flat xs)) (c ∷ cs) tx = (place_flat xs (c ∷ cs) tx, ok tt)
  place (some (rows cols rs)) (c ∷ cs) tx =
      if length rs == length (c ∷ cs)
      then (place_rows rs (c ∷ cs) tx, ok tt)
      else (tx, err wrong_rows)

  unfoldable pub is_nil : List ℕ → Bool
  is_nil [] = true
  is_nil (c ∷ cs) = false

  unfoldable pub place_both :
      Store → List (List sp.Sample) → List (List sp.Sample) × Result Problem (Unit {0})
  unfolding place
  place_both st tx =
      let (tx', placed) = place st.sync_signal_data st.sync_channels tx in
      elim placed [ err e ↦ (tx', err e) | ok u ↦ place st.intf_signal_data st.intf_channels tx' ]

  -- `_assemble_tx_signal`. `tx_signal` is assigned before the rows are placed.
  unfoldable pub assemble_tx_signal : Store → Store × Result Problem (Unit {0})
  unfolding len max_channel zero_rows place_both is_nil
  assemble_tx_signal st =
      let n = max (len st.sync_signal_data) (len st.intf_signal_data) in
      let sized = record st { signal_samples = n } in
      let all_channels = st.sync_channels ++ st.intf_channels in
      if n == 0
      then (sized, err no_signal)
      else if is_nil all_channels
      then (sized, err no_channels)
      else let placed = place_both st (zero_rows (max_channel all_channels + 1) n) in
        (record sized { tx_signal = some placed.0 }, placed.1)

  -- One of the two signals: `none` is a path that was not given.
  unfoldable pub load_one :
      Option (File sp) → List ℕ → Problem → Result Problem (Option (Signal sp))
  unfolding load_signal_file is_nil
  load_one none cs missing = ok none
  load_one (some f) cs missing = do
    raise_if (is_nil cs) missing
    s ← load_signal_file sp f
    ok (some s)

  unfoldable pub cleared : Store → Store
  cleared st = record st {
    sync_signal_data = none;
    intf_signal_data = none;
    tx_signal = none;
    signal_samples = 0;
  }

  load_intf : Store → Option (File sp) → Store × Result Problem (Unit {0})
  unfolding load_one assemble_tx_signal
  load_intf st intf = elim (load_one intf st.intf_channels no_intf_channels) [
    | err e ↦ (st, err e)
    | ok b ↦ assemble_tx_signal (record st { intf_signal_data = b })
  ]

  load_sync : Store → Option (File sp) → Option (File sp) → Store × Result Problem (Unit {0})
  unfolding load_one load_intf
  load_sync st sync intf = elim (load_one sync st.sync_channels no_sync_channels) [
    | err e ↦ (st, err e)
    | ok a ↦ load_intf (record st { sync_signal_data = a }) intf
  ]

  is_none : Option (File sp) → Bool
  is_none none = true
  is_none (some f) = false

  -- `load_signal`.
  unfoldable pub load_signal :
      Store → Option (File sp) → Option (File sp) → Store × Result Problem (Unit {0})
  unfolding cleared load_sync is_nil is_none
  load_signal st sync intf =
      if is_nil st.sync_channels && is_nil st.intf_channels
      then (st, err not_configured)
      else if is_none sync && is_none intf
      then (st, err no_path)
      else load_sync (cleared st) sync intf
