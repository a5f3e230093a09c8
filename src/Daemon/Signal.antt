-- ===== src/Daemon/Signal.antt =====
-- usrp_testbed_library/tx_daemon.py, `_load_signal_file`: the signal in an HDF5 file.
use usrp_playground.Prelude.{
  ℕ, Bool, true, false, not, ◌&&◌, ◌||◌, List, [], ◌∷◌, ◌++◌, Option, none, some, length, ◌==◌,
  if◌then◌else◌, Result, ok, err, ◌>>◌, raise_if,
}

-- The samples: zero, the test for it, and `re + 1j * im`.
pub record Samples : Type 1 where
  pub Sample : Type 0
  pub zero_sample : Sample
  pub is_zero_sample : Sample → Bool
  pub join : Sample → Sample → Sample

-- The exceptions of `load_signal`.
pub data Problem : Type 0 where
  not_configured no_path no_sync_channels no_intf_channels : Problem
  file_not_found not_h5 no_dataset unreadable bad_shape empty_signal all_zero : Problem
  no_signal no_channels wrong_rows : Problem

module _ (sp : Samples) where
  -- A dataset of one or two dimensions. A matrix has its number of columns beside its rows.
  pub data Dataset : Type 0 where
    vector : List sp.Sample → Dataset
    matrix : ℕ → List (List sp.Sample) → Dataset

  -- The attributes `multichannel`, and `complex_format` by whether it is "interleaved_real_imag".
  pub record Stored : Type 0 where
    pub multichannel : Bool
    pub complex_format : Option Bool
    pub dataset : Dataset

  -- What is found at a path. A dataset that cannot be sliced, such as a scalar, is `broken`.
  pub data File : Type 0 where
    absent no_h5 broken without_signal : File
    holds : Stored → File

  -- What is kept in `sync_signal_data` and `intf_signal_data`: one or two dimensions.
  pub data Signal : Type 0 where
    flat : List sp.Sample → Signal
    rows : ℕ → List (List sp.Sample) → Signal

  unfoldable pub all_zeros : List sp.Sample → Bool
  all_zeros [] = true
  all_zeros (x ∷ xs) = sp.is_zero_sample x && all_zeros xs

  unfoldable pub flatten : List (List sp.Sample) → List sp.Sample
  flatten [] = []
  flatten (r ∷ rs) = r ++ flatten rs

  unfoldable pub join_rows : List sp.Sample → List sp.Sample → List sp.Sample
  join_rows (x ∷ xs) (y ∷ ys) = sp.join x y ∷ join_rows xs ys
  join_rows _ _ = []

  -- `signal_data[:, 0] + 1j * signal_data[:, 1]`.
  unfoldable pub join_columns : List (List sp.Sample) → List sp.Sample
  join_columns ((x ∷ y ∷ r) ∷ rs) = sp.join x y ∷ join_columns rs
  join_columns _ = []

  unfoldable pub check_content : List sp.Sample → Signal → Result Problem Signal
  unfolding all_zeros
  check_content xs s = do
    raise_if (length xs == 0) empty_signal
    raise_if (all_zeros xs) all_zero
    ok s

  unfoldable pub read_multichannel : Dataset → Result Problem Signal
  unfolding check_content flatten
  read_multichannel (matrix cols rs) = check_content (flatten rs) (rows cols rs)
  read_multichannel _ = err bad_shape

  unfoldable pub read_interleaved : Dataset → Result Problem Signal
  unfolding check_content join_rows join_columns
  read_interleaved (matrix cols (re ∷ im ∷ [])) =
      let xs = join_rows re im in check_content xs (flat xs)
  read_interleaved (matrix cols rs) =
      if cols == 2 then (let xs = join_columns rs in check_content xs (flat xs)) else err bad_shape
  read_interleaved _ = err unreadable

  unfoldable pub read_flat : Dataset → Result Problem Signal
  unfolding check_content flatten
  read_flat (vector xs) = check_content xs (flat xs)
  read_flat (matrix cols rs) = let xs = flatten rs in check_content xs (flat xs)

  -- "Signal must be 1D vector or 2D vector (Nx1 or 1xN)".
  unfoldable pub is_vector_shape : Dataset → Bool
  is_vector_shape (matrix cols rs) = length rs == 1 || cols == 1
  is_vector_shape _ = true

  unfoldable pub read_stored : Stored → Result Problem Signal
  unfolding read_multichannel read_interleaved read_flat is_vector_shape
  read_stored s = if s.multichannel then read_multichannel s.dataset else elim s.complex_format [
    | none ↦ do raise_if (not (is_vector_shape s.dataset)) bad_shape; read_flat s.dataset
    | some true ↦ read_interleaved s.dataset
    | some false ↦ read_flat s.dataset
  ]

  -- `_load_signal_file`.
  unfoldable pub load_signal_file : File → Result Problem Signal
  unfolding read_stored
  load_signal_file absent = err file_not_found
  load_signal_file no_h5 = err not_h5
  load_signal_file broken = err unreadable
  load_signal_file without_signal = err no_dataset
  load_signal_file (holds s) = read_stored s
