-- ===== src/Mimo/Shape.antt =====
-- mimo_format.py: what `decode_mimo` and `decode_siso` accept, and the shape of what they return.
use usrp_playground.Prelude.{
  ℕ, zero, suc, ◌+◌, ◌-◌, ◌*◌, ◌/◌, ◌%◌, ◌≤◌, ◌<◌, min, ◌≡◌, refl, ap, ◌↔◌, true, List, [], ◌∷◌,
  arith, ◌==◌, if◌then◌else◌, length, take, drop, All, ok, err, length-take, length-drop, le→ltb,
}
use usrp_playground.Mimo.{
  Numpy, Matrix, bad_buffer, header_len, is_mimo_blob, unpack_u32, combine, evens, decode_channel,
  decode_channels, decode_mimo, decode_siso,
}
use usrp_playground.Mimo.Floats.{frombuffer_total, frombuffer_ragged}

-- The two counts of the header.
abbrev pub header_channels : List ℕ → ℕ
header_channels blob = unpack_u32 (take 4 (drop 8 blob))

abbrev pub header_samples : List ℕ → ℕ
header_samples blob = unpack_u32 (drop 4 (take 8 (drop 8 blob)))

-- A blob with the magic has the whole header.
pub is_mimo_blob-le : (blob : List ℕ) → is_mimo_blob blob ≡ true → header_len ≤ length blob
unfolding is_mimo_blob
is_mimo_blob-le blob h = ground arith

length-evens {ℓ} : {A : Type ℓ} (xs : List A) → length (evens xs) ≡ (length xs + 1) / 2
unfolding evens
length-evens [] = omega arith
length-evens (x ∷ []) = omega arith
length-evens (x ∷ y ∷ rest) = omega (arith, length-evens rest)

module _ (np : Numpy) where
  open np use {F32, C64}

  -- `c` columns of `n` samples each.
  pub record HasShape (m : Matrix np) (c n : ℕ) : Type 0 where
    pub samples : m.n_samples ≡ n
    pub channels : length m.columns ≡ c
    pub full : All (λ col. length col ≡ n) m.columns

  length-combine : (is qs : List F32) → length (combine np is qs) ≡ min (length is) (length qs)
  unfolding combine
  length-combine [] qs = omega arith
  length-combine (i ∷ is) [] = omega arith
  length-combine (i ∷ is) (q ∷ qs) = omega (arith, length-combine is qs)

  length-decode_channel :
      (raw : List F32) (n base : ℕ)
      → base + n * 2 ≤ length raw
      → length (decode_channel np raw n base) ≡ n
  unfolding decode_channel
  length-decode_channel raw n base h =
      let is = take (n * 2) (drop base raw) in
      let qs = take (n * 2 - 1) (drop (base + 1) raw) in
      omega (
        arith,
        length-combine (evens is) (evens qs),
        length-evens is,
        length-evens qs,
        length-take (n * 2) (drop base raw),
        length-take (n * 2 - 1) (drop (base + 1) raw),
        length-drop base raw,
        length-drop (base + 1) raw,
      )

  decode_channels_full :
      (raw : List F32) (n ch k : ℕ)
      → (ch + k) * n * 2 ≤ length raw
      → All (λ col. length col ≡ n) (decode_channels np raw n ch k)
        × (length (decode_channels np raw n ch k) ≡ k)
  unfolding decode_channels
  decode_channels_full raw n ch zero h = (tt, refl)
  decode_channels_full raw n ch (suc k) h =
      let (full, count) = decode_channels_full raw n (suc ch) k (omega arith) in
      ((length-decode_channel raw n (ch * n * 2) (omega arith), full), ap suc count)

  pub decode_mimo_total :
      (blob : List ℕ)
      → is_mimo_blob blob ≡ true
      → header_channels blob * header_samples blob * 8 + header_len ≤ length blob
      → (m : Matrix np) × (decode_mimo np blob ≡ ok m)
        × HasShape m (header_channels blob) (header_samples blob)
  unfolding decode_mimo
  decode_mimo_total blob mimo fits =
      let c = header_channels blob in
      let n = header_samples blob in
      let payload = drop header_len blob in
      let (raw, e, l) =
        frombuffer_total np (take (c * n * 8) payload) (c * n * 2)
          (omega (arith, length-take (c * n * 8) payload, length-drop header_len blob)) in
      let (full, count) = decode_channels_full raw n 0 c (omega arith) in
      (
        record { n_samples = n; columns = decode_channels np raw n 0 c },
        rw (
          mimo,
          le→ltb (length payload) (c * n * 8) (omega (arith, length-drop header_len blob)),
          e,
        ),
        record { samples = refl; channels = count; full = full },
      )

  decode_mimo_only :
      (blob : List ℕ) (m : Matrix np)
      → decode_mimo np blob ≡ ok m
      → (is_mimo_blob blob ≡ true)
        × (header_channels blob * header_samples blob * 8 + header_len ≤ length blob)
  unfolding decode_mimo
  decode_mimo_only blob m h = ground (arith, length-drop header_len blob, is_mimo_blob-le blob)

  -- `decode_mimo` succeeds exactly on a blob with the magic whose payload is at least as long as
  -- the header promises.
  pub decode_mimo_iff :
      (blob : List ℕ)
      → ((m : Matrix np) × (decode_mimo np blob ≡ ok m)) ↔ (
          (is_mimo_blob blob ≡ true)
          × (header_channels blob * header_samples blob * 8 + header_len ≤ length blob))
  decode_mimo_iff blob = (
    λ p. decode_mimo_only blob p.0 p.1,
    λ a. let r = decode_mimo_total blob a.0 a.1 in (r.0, r.1),
  )

  -- `raw[:-1]` where the number of floats is odd.
  abbrev whole_pairs : List F32 → List F32
  whole_pairs xs = if length xs % 2 == 0 then xs else take (length xs - 1) xs

  length-whole_pairs : (xs : List F32) → length (whole_pairs xs) ≡ length xs / 2 * 2
  length-whole_pairs xs = ground (arith, length-take (length xs - 1) xs)

  -- `decode_siso` on whole floats.
  pub decode_siso_total :
      (blob : List ℕ) (k : ℕ)
      → length blob ≡ k * 4
      → (s : List C64) × (decode_siso np blob ≡ ok s) × (length s ≡ length blob / 8)
  decode_siso_total blob k h =
      let (floats, e, l) = frombuffer_total np blob k h in
      let raw = whole_pairs floats in
      (
        combine np (evens raw) (evens (drop 1 raw)),
        unfold decode_siso in rw e,
        omega (
          arith,
          length-combine (evens raw) (evens (drop 1 raw)),
          length-evens raw,
          length-evens (drop 1 raw),
          length-drop 1 raw,
          length-whole_pairs floats,
        ),
      )

  pub decode_siso_ragged :
      (blob : List ℕ) (k r : ℕ)
      → length blob ≡ k * 4 + suc r
      → r < 3
      → decode_siso np blob ≡ err bad_buffer
  unfolding decode_siso
  decode_siso_ragged blob k r h l = rw (frombuffer_ragged np blob k r h l)
