-- ===== src/Daemon/Store/Failure.antt =====
-- What a `load_signal` that fails leaves in `tx_signal`.
use usrp_playground.Prelude.{
  ℕ, ◌≡◌, ◌≢◌, refl, ◌⊎◌, ◌&&◌, List, [], ◌∷◌, Option, none, some, ◌==◌, if-both, arith, err,
  Result, inl, inr, Bool-cases, Result-cases,
}
use usrp_playground.Daemon.Signal.{
  Samples, Signal, flat, rows, Dataset, vector, matrix, File, absent, no_h5, broken, without_signal,
  holds, Problem, bad_shape, wrong_rows, no_sync_channels, no_intf_channels, Stored, check_content,
  join_columns, read_multichannel, read_interleaved, read_flat, read_stored, load_signal_file,
}
use usrp_playground.Daemon.Store.{
  Store, place, place_both, assemble_tx_signal, load_one, cleared, load_intf, load_sync,
  load_signal, is_nil, is_none,
}

module _ (sp : Samples) where
  abbrev pub FailsWith : Store sp → Problem → Store sp → Type 0
  FailsWith st e st' =
      (e ≡ wrong_rows → st'.tx_signal ≢ none)
      × (e ≢ wrong_rows → (st' ≡ st) ⊎ (st'.tx_signal ≡ none))

  place-error :
      (s : Option (Signal sp)) (cs : List ℕ) (tx : List (List sp.Sample)) (e : Problem)
      → (place sp s cs tx).1 ≡ err e
      → e ≡ wrong_rows
  unfolding place
  place-error none cs tx e h = cc
  place-error (some (flat xs)) [] tx e h = cc
  place-error (some (flat xs)) (c ∷ cs) tx e h = cc
  place-error (some (rows cols rs)) [] tx e h = cc
  place-error (some (rows cols rs)) (c ∷ cs) tx e h = ground (arith, h)

  place_both-error :
      (st : Store sp) (tx : List (List sp.Sample)) (e : Problem)
      → (place_both sp st tx).1 ≡ err e
      → e ≡ wrong_rows
  unfolding place_both
  place_both-error st tx e h = ground (
    arith,
    h,
    place-error st.sync_signal_data st.sync_channels tx e,
    place-error st.intf_signal_data st.intf_channels
        (place sp st.sync_signal_data st.sync_channels tx).0 e,
  )

  -- The matrix is there exactly if the error is the last one.
  LeavesMatrix : Problem → Store sp → Type 0
  LeavesMatrix e st' =
      (e ≡ wrong_rows → st'.tx_signal ≢ none) × (e ≢ wrong_rows → st'.tx_signal ≡ none)

  assemble_tx_signal-error :
      (st : Store sp) (e : Problem)
      → st.tx_signal ≡ none
      → (assemble_tx_signal sp st).1 ≡ err e
      → LeavesMatrix e (assemble_tx_signal sp st).0
  unfolding assemble_tx_signal LeavesMatrix
  assemble_tx_signal-error st e t h =
      let placed = place_both-error st in
      (λ w. ground (arith, h, w, t), λ w. ground (arith, h, w, t, placed _ e))

  abbrev IsReading : Result Problem (Signal sp) → Type 0
  IsReading r = r ≢ err wrong_rows

  check_content-IsReading :
      (xs : List sp.Sample) (s : Signal sp) → IsReading (check_content sp xs s)
  unfolding check_content
  check_content-IsReading xs s h = ground (arith, h)

  bad_shape-IsReading : IsReading (err bad_shape)
  bad_shape-IsReading h = cc

  read_multichannel-IsReading : (d : Dataset sp) → IsReading (read_multichannel sp d)
  unfolding read_multichannel
  read_multichannel-IsReading (vector xs) = cc
  read_multichannel-IsReading (matrix cols rs) = check_content-IsReading _ _

  joined :
      (rs : List (List sp.Sample))
      → IsReading (check_content sp (join_columns sp rs) (flat (join_columns sp rs)))
  joined rs = check_content-IsReading _ _

  read_interleaved-IsReading : (d : Dataset sp) → IsReading (read_interleaved sp d)
  unfolding read_interleaved
  read_interleaved-IsReading (vector xs) = cc
  read_interleaved-IsReading (matrix cols []) =
      if-both IsReading (cols == 2) (joined []) bad_shape-IsReading
  read_interleaved-IsReading (matrix cols (re ∷ [])) =
      if-both IsReading (cols == 2) (joined (re ∷ [])) bad_shape-IsReading
  read_interleaved-IsReading (matrix cols (re ∷ im ∷ [])) = check_content-IsReading _ _
  read_interleaved-IsReading (matrix cols (re ∷ im ∷ r ∷ rs)) =
      if-both IsReading (cols == 2) (joined (re ∷ im ∷ r ∷ rs)) bad_shape-IsReading

  read_flat-IsReading : (d : Dataset sp) → IsReading (read_flat sp d)
  unfolding read_flat
  read_flat-IsReading (vector xs) = check_content-IsReading _ _
  read_flat-IsReading (matrix cols rs) = check_content-IsReading _ _

  read_stored-IsReading : (s : Stored sp) → IsReading (read_stored sp s)
  unfolding read_stored
  read_stored-IsReading s h = ground (
    arith,
    h,
    read_multichannel-IsReading s.dataset,
    read_interleaved-IsReading s.dataset,
    read_flat-IsReading s.dataset,
  )

  load_signal_file-IsReading : (f : File sp) → IsReading (load_signal_file sp f)
  unfolding load_signal_file
  load_signal_file-IsReading absent = cc
  load_signal_file-IsReading no_h5 = cc
  load_signal_file-IsReading broken = cc
  load_signal_file-IsReading without_signal = cc
  load_signal_file-IsReading (holds s) = read_stored-IsReading s

  load_one-error :
      (f : Option (File sp)) (cs : List ℕ) (missing e : Problem)
      → missing ≢ wrong_rows
      → load_one sp f cs missing ≡ err e
      → e ≢ wrong_rows
  unfolding load_one
  load_one-error none cs missing e n h w = cc
  load_one-error (some f) cs missing e n h w = ground (arith, h, w, n, load_signal_file-IsReading f)

  load_intf-error :
      (st : Store sp) (intf : Option (File sp)) (e : Problem)
      → st.tx_signal ≡ none
      → (load_intf sp st intf).1 ≡ err e
      → LeavesMatrix e (load_intf sp st intf).0
  unfolding load_intf LeavesMatrix
  load_intf-error st intf e t h =
      elim (Result-cases (load_one sp intf st.intf_channels no_intf_channels)) [
        | inl (e', q) ↦
            let n = load_one-error intf st.intf_channels no_intf_channels e (cc) in
            (λ w. ground (arith, h, w, q, n), λ w. ground (arith, h, w, q, t))
        | inr (b, q) ↦
            let rest = assemble_tx_signal-error (record st { intf_signal_data = b }) e t in
            (λ w. ground (arith, h, w, q, rest), λ w. ground (arith, h, w, q, rest))
      ]

  load_sync-error :
      (st : Store sp) (sync intf : Option (File sp)) (e : Problem)
      → st.tx_signal ≡ none
      → (load_sync sp st sync intf).1 ≡ err e
      → LeavesMatrix e (load_sync sp st sync intf).0
  unfolding load_sync LeavesMatrix
  load_sync-error st sync intf e t h =
      elim (Result-cases (load_one sp sync st.sync_channels no_sync_channels)) [
        | inl (e', q) ↦
            let n = load_one-error sync st.sync_channels no_sync_channels e (cc) in
            (λ w. ground (arith, h, w, q, n), λ w. ground (arith, h, w, q, t))
        | inr (a, q) ↦
            let rest = load_intf-error (record st { sync_signal_data = a }) intf e t in
            (λ w. ground (arith, h, w, q, rest), λ w. ground (arith, h, w, q, rest))
      ]

  -- A `load_signal` that raises leaves `tx_signal` empty or the whole state as it was, except where the
  -- rows of a two-dimensional signal are not as many as its channels: then `tx_signal` is a matrix.
  pub load_signal-error :
      (st : Store sp) (sync intf : Option (File sp)) (e : Problem)
      → (load_signal sp st sync intf).1 ≡ err e
      → FailsWith st e (load_signal sp st sync intf).0
  unfolding load_signal LeavesMatrix cleared
  load_signal-error st sync intf e h =
      let rest = load_sync-error (cleared sp st) sync intf e refl in
      (
        λ w. ground (arith, h, w, rest),
        λ w. elim (Bool-cases (is_nil sp st.sync_channels && is_nil sp st.intf_channels)) [
          | inl a ↦ inl (ground (arith, a))
          | inr a ↦ elim (Bool-cases (is_none sp sync && is_none sp intf)) [
            | inl b ↦ inl (ground (arith, a, b))
            | inr b ↦ inr (ground (arith, h, w, a, b, rest))
          ]
        ],
      )
