-- ===== src/Mimo/RoundTrip.antt =====
-- mimo_format.py: what `encode_*` writes, `decode_*` reads back.
use mathlib.Core.List.{append_assoc}
use usrp_playground.Prelude.{
  ℕ, suc, ◌-◌, ◌*◌, ◌%◌, ◌^◌, ◌<◌, ◌≡◌, ◌≢◌, ◌⊎◌, inl, inr, refl, ap, true, false, List, [], ◌∷◌,
  ◌++◌, map, arith, ◌==◌, ==_iff, length, take, drop, All, ok, ◌>>=◌, length-append, drop-drop,
  take-append_self, take-length, drop-append_self, le→ltb, le→leb,
}
use usrp_playground.Prelude.Text.{text_eq}
use usrp_playground.Mimo.{
  Numpy, Word, IsExact, Matrix, Signal, siso, mimo, magic, is_mimo_blob, tobytes, interleave, evens,
  channel_floats, encode_mimo, decode_channel, decode_channels, decode_mimo, encode_siso,
  decode_siso, encode_any, decode_any,
}
use usrp_playground.Mimo.Floats.{
  u32_bytes, pack_u32_in_range, unpack_u32-u32_bytes, length-tobytes, length-interleave,
  frombuffer-tobytes, combine-parts, evens-interleave, evens-cons-interleave,
}

-- The bytes of "MIMO", and of a float that is zero.
abbrev pub mimo_word : Word
mimo_word = record { b0 = 77; b1 = 73; b2 = 77; b3 = 79 }

abbrev pub zero_word : Word
zero_word = record { b0 = 0; b1 = 0; b2 = 0; b3 = 0 }

Word-eq :
    (w : Word) (a b c d : ℕ)
    → w.b0 ≡ a
    → w.b1 ≡ b
    → w.b2 ≡ c
    → w.b3 ≡ d
    → w ≡ record { b0 = a; b1 = b; b2 = c; b3 = d }
Word-eq w a b c d e f g h = λ i. record { b0 = e i; b1 = f i; b2 = g i; b3 = h i }

no_magic_bytes :
    (v w : Word) (rest : List ℕ)
    → (v ≢ mimo_word) ⊎ (w ≢ zero_word)
    → is_mimo_blob (v.b0 ∷ v.b1 ∷ v.b2 ∷ v.b3 ∷ w.b0 ∷ w.b1 ∷ w.b2 ∷ w.b3 ∷ rest) ≡ false
unfolding is_mimo_blob text_eq
no_magic_bytes v w rest (inl h) =
    let apart : v.b0 ≡ 77 → v.b1 ≡ 73 → v.b2 ≡ 77 → v.b3 ≡ 79 → ⊥ =
      λ e f g k. h (Word-eq v 77 73 77 79 e f g k) in
    ground (arith, apart)
no_magic_bytes v w rest (inr h) =
    let apart : w.b0 ≡ 0 → w.b1 ≡ 0 → w.b2 ≡ 0 → w.b3 ≡ 0 → ⊥ =
      λ e f g k. h (Word-eq w 0 0 0 0 e f g k) in
    ground (arith, apart)

odd_stop : (k : ℕ) → suc k * 2 - 1 ≡ suc (k * 2)
odd_stop k = omega arith

module _ (np : Numpy) where
  open np use {F32, C64, real, imag}

  real_slice :
      (pre post : List F32) (col : List C64)
      → take (length col * 2) (drop (length pre) (pre ++ (interleave np col ++ post)))
        ≡ interleave np col
  real_slice pre post col =
      rw (drop-append_self pre (interleave np col ++ post), ← length-interleave np col)
        (take-append_self (interleave np col) post)

  imag_tail :
      (post : List F32) (col : List C64)
      → evens (take (length col * 2 - 1) (drop 1 (interleave np col ++ post))) ≡ map imag col
  unfolding interleave evens
  imag_tail post [] = refl
  imag_tail post (z ∷ zs) =
      rw (odd_stop (length zs), ← length-interleave np zs, take-append_self (interleave np zs) post)
        (evens-cons-interleave np (imag z) zs)

  module _ {plain : C64 → Type 0} (exact : IsExact np plain) where
    decode_channel-interleave :
        (pre post : List F32) (col : List C64)
        → All plain col
        → decode_channel np (pre ++ (interleave np col ++ post)) (length col) (length pre) ≡ col
    unfolding decode_channel
    decode_channel-interleave pre post col h =
        rw
          (
            real_slice pre post col,
            evens-interleave np col,
            ← drop-drop (length pre) 1 (pre ++ (interleave np col ++ post)),
            drop-append_self pre (interleave np col ++ post),
            imag_tail post col,
          )
          (combine-parts np exact col h)

    decode_channels-channel_floats :
        (n ch : ℕ) (pre : List F32) (cols : List (List C64))
        → length pre ≡ ch * n * 2
        → All (λ col. length col ≡ n) cols
        → All (λ col. All plain col) cols
        → decode_channels np (pre ++ channel_floats np cols) n ch (length cols) ≡ cols
    unfolding decode_channels channel_floats
    decode_channels-channel_floats n ch pre [] at full plains = refl
    decode_channels-channel_floats n ch pre (col ∷ cols) at full plains =
        let next = pre ++ interleave np col in
        let rest =
          decode_channels-channel_floats n (suc ch) next cols
            (omega (
              arith,
              length-append pre (interleave np col),
              length-interleave np col,
              ap (λ (t : ℕ). t * 2) full.0,
            ))
            full.1 plains.1 in
        rw (← at, ← full.0, decode_channel-interleave pre (channel_floats np cols) col plains.0)
          (ap (◌∷◌ col)
            (rw (append_assoc pre (interleave np col) (channel_floats np cols)) at rest))

length-channel_floats :
    (np : Numpy) (n : ℕ) (cols : List (List np.C64))
    → All (λ col. length col ≡ n) cols
    → length (channel_floats np cols) ≡ length cols * n * 2
unfolding channel_floats
length-channel_floats np n [] full = omega arith
length-channel_floats np n (col ∷ cols) full = omega (
  arith,
  length-append (interleave np col) (channel_floats np cols),
  length-interleave np col,
  length-channel_floats np n cols full.1,
)

-- The blob that `encode_mimo` writes for `c` channels of `n` samples with this payload.
abbrev written : ℕ → ℕ → List ℕ → List ℕ
written c n payload = magic ++ (u32_bytes c ++ (u32_bytes n ++ payload))

written-is_mimo_blob : (c n : ℕ) (payload : List ℕ) → is_mimo_blob (written c n payload) ≡ true
unfolding is_mimo_blob text_eq
written-is_mimo_blob c n payload = rw (le→leb 16 (length (written c n payload)) (omega arith))

-- An array that fits into the header: between 1 and 2^32 - 1 channels and samples, each column
-- full, each number `plain`.
pub record Encodable (np : Numpy) (plain : np.C64 → Type 0) (m : Matrix np) : Type 0 where
  pub channels_pos : 0 < length m.columns
  pub channels_lt : length m.columns < 2 ^ 32
  pub samples_pos : 0 < m.n_samples
  pub samples_lt : m.n_samples < 2 ^ 32
  pub full : All (λ col. length col ≡ m.n_samples) m.columns
  pub exact : All (λ col. All plain col) m.columns

module _ (np : Numpy) {plain : np.C64 → Type 0} (exact : IsExact np plain) where
  encode_mimo-written :
      (m : Matrix np)
      → Encodable np plain m
      → encode_mimo np m
        ≡ ok (written (length m.columns) m.n_samples (tobytes np (channel_floats np m.columns)))
  unfolding encode_mimo
  encode_mimo-written m v = rw (
    le→ltb (length m.columns) 1 v.channels_pos,
    le→ltb m.n_samples 1 v.samples_pos,
    pack_u32_in_range _ v.channels_lt,
    pack_u32_in_range _ v.samples_lt,
  )

  decode_mimo-written :
      (m : Matrix np)
      → Encodable np plain m
      → decode_mimo np
          (written (length m.columns) m.n_samples (tobytes np (channel_floats np m.columns)))
        ≡ ok m
  unfolding decode_mimo
  decode_mimo-written m v =
      let payload = tobytes np (channel_floats np m.columns) in
      let size : length m.columns * m.n_samples * 8 ≡ length payload = omega (
        arith,
        length-tobytes np (channel_floats np m.columns),
        length-channel_floats np m.n_samples m.columns v.full,
      ) in
      rw (
        written-is_mimo_blob (length m.columns) m.n_samples payload,
        unpack_u32-u32_bytes _ v.channels_lt,
        unpack_u32-u32_bytes _ v.samples_lt,
        size,
        le→ltb (length payload) (length payload) (omega arith),
        take-length payload,
        frombuffer-tobytes np exact (channel_floats np m.columns),
        decode_channels-channel_floats np exact m.n_samples 0 [] m.columns (omega arith) v.full
            v.exact,
      )

  -- A multi-channel array that fits into the header survives the wire: `encode_mimo` accepts it,
  -- and `decode_mimo` returns it from the blob.
  pub decode_mimo-encode_mimo :
      (m : Matrix np) → Encodable np plain m → (encode_mimo np m >>= decode_mimo np) ≡ ok m
  decode_mimo-encode_mimo m v = rw (encode_mimo-written m v) (decode_mimo-written m v)

  siso_pairs : (s : List np.C64) → evens (drop 1 (interleave np s)) ≡ map np.imag s
  unfolding interleave evens
  siso_pairs [] = refl
  siso_pairs (z ∷ zs) = evens-cons-interleave np (np.imag z) zs

  -- So does a single-channel signal of any length.
  pub decode_siso-encode_siso :
      (s : List np.C64) → All plain s → decode_siso np (encode_siso np s) ≡ ok s
  unfolding decode_siso encode_siso
  decode_siso-encode_siso s h =
      let even : (length s * 2 % 2 == 0) ≡ true = (==_iff _ 0).1 (omega arith) in
      rw (
        frombuffer-tobytes np exact (interleave np s),
        length-interleave np s,
        even,
        evens-interleave np s,
        siso_pairs s,
        combine-parts np exact s h,
      )

  -- The first number of a 1-D signal, if there are two at least, does not look like the magic: its parts
  -- are not the float whose bytes read "MIMO" and zero.
  abbrev pub NoMagic : List np.C64 → Type 0
  NoMagic (z ∷ w ∷ zs) = (np.bytes (np.real z) ≢ mimo_word) ⊎ (np.bytes (np.imag z) ≢ zero_word)
  NoMagic _ = Unit {0}

  encode_siso-NoMagic : (s : List np.C64) → NoMagic s → is_mimo_blob (encode_siso np s) ≡ false
  unfolding is_mimo_blob encode_siso tobytes interleave text_eq
  encode_siso-NoMagic [] h = refl
  encode_siso-NoMagic (z ∷ []) h = refl
  encode_siso-NoMagic (z ∷ w ∷ zs) h =
      no_magic_bytes (np.bytes (np.real z)) (np.bytes (np.imag z))
        (tobytes np (interleave np (w ∷ zs))) h

  -- A signal that `encode_any` can write: an array for the header, or a 1-D signal that does not start
  -- with the magic.
  abbrev pub IsEncodable : Signal np → Type 0
  IsEncodable (siso s) = All plain s × NoMagic s
  IsEncodable (mimo m) = Encodable np plain m

  -- `decode_any` tells the two formats apart and returns the signal that `encode_any` wrote: for an
  -- array that fits into the header, and for a 1-D signal whose first number does not have the eight
  -- bytes of the magic.
  pub decode_any-encode_any :
      (x : Signal np) → IsEncodable x → (encode_any np x >>= decode_any np) ≡ ok x
  unfolding encode_any decode_any
  decode_any-encode_any (siso s) h = rw (encode_siso-NoMagic s h.1, decode_siso-encode_siso s h.0)
  decode_any-encode_any (mimo m) v = rw (
    encode_mimo-written m v,
    written-is_mimo_blob (length m.columns) m.n_samples (tobytes np (channel_floats np m.columns)),
    decode_mimo-written m v,
  )
