-- ===== src/Mimo.antt =====
-- usrp_testbed_library/mimo_format.py: the wire format of IQ signals. A blob is a list of bytes.
-- A float32 is opaque beside the four bytes that numpy keeps it in, and a complex64 beside its
-- parts: `Numpy` holds the operations that the code takes from there.
pub mod Floats
pub mod Shape
pub mod Content
pub mod RoundTrip
use usrp_playground.Prelude.{
  ℕ, zero, suc, ◌+◌, ◌-◌, ◌*◌, ◌/◌, ◌%◌, ◌^◌, ◌≡◌, Bool, true, false, ◌&&◌, ◌||◌, List, [], ◌∷◌,
  ◌++◌, leb, ltb, ◌==◌, if◌then◌else◌, length, take, drop, All, Result, ok, err, ◌>>=◌, ◌>>◌,
  raise_if,
}
use usrp_playground.Prelude.Text.{codes, text_eq}

-- `ValueError` with its cause, and `struct.error`.
pub data Error : Type 0 where
  invalid_shape not_mimo truncated bad_buffer struct_error : Error

-- Four bytes of memory.
pub record Word : Type 0 where
  pub b0 : ℕ
  pub b1 : ℕ
  pub b2 : ℕ
  pub b3 : ℕ

-- What is used of numpy's values: the bytes of a float32 and back, the parts of a complex64, and
-- `I + 1j * Q`.
pub record Numpy : Type 1 where
  pub F32 : Type 0
  pub C64 : Type 0
  pub bytes : F32 → Word
  pub value : Word → F32
  pub real : C64 → F32
  pub imag : C64 → F32
  pub join : F32 → F32 → C64

-- A float is read back from its bytes, and a complex number in `plain` (finite, no negative zero)
-- is put together from its parts.
pub record IsExact (np : Numpy) (plain : np.C64 → Type 0) : Type 0 where
  pub value-bytes : (x : np.F32) → np.value (np.bytes x) ≡ x
  pub join-parts : (z : np.C64) → plain z → np.join (np.real z) (np.imag z) ≡ z

abbrev pub magic : List ℕ
magic = 77 ∷ 73 ∷ 77 ∷ 79 ∷ 0 ∷ 0 ∷ 0 ∷ 0 ∷ []

abbrev pub header_len : ℕ
header_len = 16

unfoldable pub is_mimo_blob : List ℕ → Bool
is_mimo_blob blob = leb header_len (length blob) && text_eq (take 8 blob) magic

-- `struct.pack("<I", n)`, and the number that four bytes stand for.
unfoldable pub pack_u32 : ℕ → Result Error (List ℕ)
pack_u32 n =
    if ltb n (2 ^ 32)
    then ok (n % 256 ∷ n / 256 % 256 ∷ n / 65536 % 256 ∷ n / 16777216 % 256 ∷ [])
    else err struct_error

unfoldable pub unpack_u32 : List ℕ → ℕ
unpack_u32 (a ∷ b ∷ c ∷ d ∷ rest) = a + 256 * b + 65536 * c + 16777216 * d
unpack_u32 _ = 0

-- `x[0::2]`.
unfoldable pub evens {ℓ} : {A : Type ℓ} → List A → List A
evens [] = []
evens (x ∷ []) = x ∷ []
evens (x ∷ y ∷ rest) = x ∷ evens rest

module _ (np : Numpy) where
  open np use {F32, C64, bytes, value, real, imag, join}

  -- A 2-D array of shape (n_samples, n_channels), by its columns.
  pub record Matrix : Type 0 where
    pub n_samples : ℕ
    pub columns : List (List C64)

  -- `x.tobytes()` and `np.frombuffer(data, dtype=np.float32)`, which wants whole words.
  unfoldable pub tobytes : List F32 → List ℕ
  tobytes [] = []
  tobytes (x ∷ xs) = let w = bytes x in w.b0 ∷ w.b1 ∷ w.b2 ∷ w.b3 ∷ tobytes xs

  unfoldable pub frombuffer : List ℕ → Result Error (List F32)
  frombuffer [] = ok []
  frombuffer (a ∷ b ∷ c ∷ d ∷ rest) = do
    xs ← frombuffer rest
    ok (value (record { b0 = a; b1 = b; b2 = c; b3 = d }) ∷ xs)
  frombuffer _ = err bad_buffer

  -- `raw[0::2] = arr.real; raw[1::2] = arr.imag`.
  unfoldable pub interleave : List C64 → List F32
  interleave [] = []
  interleave (z ∷ zs) = real z ∷ imag z ∷ interleave zs

  -- `I + 1j * Q`, entry by entry.
  unfoldable pub combine : List F32 → List F32 → List C64
  combine (i ∷ is) (q ∷ qs) = join i q ∷ combine is qs
  combine _ _ = []

  -- The loop over the channels of `encode_mimo`: each fills its part of `out`, one after another.
  unfoldable pub channel_floats : List (List C64) → List F32
  channel_floats [] = []
  channel_floats (col ∷ cols) = interleave col ++ channel_floats cols

  unfoldable pub encode_mimo : Matrix → Result Error (List ℕ)
  encode_mimo m = do
    let n_channels = length m.columns
    raise_if (ltb n_channels 1 || ltb m.n_samples 1) invalid_shape
    c ← pack_u32 n_channels
    n ← pack_u32 m.n_samples
    ok (magic ++ (c ++ (n ++ tobytes (channel_floats m.columns))))

  -- One round of the loop of `decode_mimo`, at `base = ch * n_samples * 2`.
  unfoldable pub decode_channel : List F32 → ℕ → ℕ → List C64
  unfolding combine evens
  decode_channel raw n base =
      combine (evens (take (n * 2) (drop base raw)))
        (evens (take (n * 2 - 1) (drop (base + 1) raw)))

  -- The rounds for the channels from `ch` on, `k` of them.
  unfoldable pub decode_channels : List F32 → ℕ → ℕ → ℕ → List (List C64)
  decode_channels raw n ch zero = []
  decode_channels raw n ch (suc k) =
      decode_channel raw n (ch * n * 2) ∷ decode_channels raw n (suc ch) k

  unfoldable pub decode_mimo : List ℕ → Result Error Matrix
  decode_mimo blob = do
    raise_if (if is_mimo_blob blob then false else true) not_mimo
    let n_channels = unpack_u32 (take 4 (drop 8 blob))
    let n_samples = unpack_u32 (drop 4 (take 8 (drop 8 blob)))
    let expected = n_channels * n_samples * 8
    let payload = drop header_len blob
    raise_if (ltb (length payload) expected) truncated
    raw ← frombuffer (take expected payload)
    ok (record { n_samples = n_samples; columns = decode_channels raw n_samples 0 n_channels })

  unfoldable pub encode_siso : List C64 → List ℕ
  encode_siso signal = tobytes (interleave signal)

  unfoldable pub decode_siso : List ℕ → Result Error (List C64)
  unfolding combine evens
  decode_siso blob = do
    floats ← frombuffer blob
    let raw = if length floats % 2 == 0 then floats else take (length floats - 1) floats
    ok (combine (evens raw) (evens (drop 1 raw)))

  -- A 1-D or a 2-D array.
  pub data Signal : Type 0 where
    siso : List C64 → Signal
    mimo : Matrix → Signal

  unfoldable pub encode_any : Signal → Result Error (List ℕ)
  encode_any (siso s) = ok (encode_siso s)
  encode_any (mimo m) = encode_mimo m

  unfoldable pub decode_any : List ℕ → Result Error Signal
  decode_any blob =
      if is_mimo_blob blob
      then (decode_mimo blob >>= λ m. ok (mimo m))
      else (decode_siso blob >>= λ s. ok (siso s))
