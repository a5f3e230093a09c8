-- ===== src/Mimo/Floats.antt =====
-- mimo_format.py: words of four bytes, and the parts of complex numbers, there and back.
use usrp_playground.Prelude.{
  ℕ, zero, suc, ◌+◌, ◌*◌, ◌/◌, ◌%◌, ◌^◌, ◌<◌, ◌≡◌, refl, List, [], ◌∷◌, ◌++◌, map, arith, length,
  All, ok, err, lt→ltb,
}
use usrp_playground.Mimo.{
  Numpy, IsExact, pack_u32, unpack_u32, bad_buffer, tobytes, frombuffer, interleave, combine, evens,
}

abbrev pub u32_bytes : ℕ → List ℕ
u32_bytes n = n % 256 ∷ n / 256 % 256 ∷ n / 65536 % 256 ∷ n / 16777216 % 256 ∷ []

pub pack_u32_in_range : (n : ℕ) → n < 2 ^ 32 → pack_u32 n ≡ ok (u32_bytes n)
unfolding pack_u32
pack_u32_in_range n h = rw (lt→ltb _ _ h)

pub unpack_u32-u32_bytes : (n : ℕ) → n < 2 ^ 32 → unpack_u32 (u32_bytes n) ≡ n
unfolding unpack_u32
unpack_u32-u32_bytes n h = omega arith

module _ (np : Numpy) where
  open np use {F32, C64, real, imag}

  pub length-tobytes : (xs : List F32) → length (tobytes np xs) ≡ 4 * length xs
  unfolding tobytes
  length-tobytes [] = omega arith
  length-tobytes (x ∷ xs) = omega (arith, length-tobytes xs)

  pub tobytes-append : (xs ys : List F32) → tobytes np (xs ++ ys) ≡ tobytes np xs ++ tobytes np ys
  unfolding tobytes
  tobytes-append [] ys = refl
  tobytes-append (x ∷ xs) ys = rw (tobytes-append xs ys)

  pub length-interleave : (zs : List C64) → length (interleave np zs) ≡ length zs * 2
  unfolding interleave
  length-interleave [] = omega arith
  length-interleave (z ∷ zs) = omega (arith, length-interleave zs)

  -- Whole words are read, as many as there are.
  pub frombuffer_total :
      (blob : List ℕ) (k : ℕ)
      → length blob ≡ k * 4
      → (xs : List F32) × (frombuffer np blob ≡ ok xs) × (length xs ≡ k)
  unfolding frombuffer
  frombuffer_total [] k h = ([], refl, omega arith)
  frombuffer_total (a ∷ b ∷ c ∷ d ∷ rest) zero h = absurd (omega arith)
  frombuffer_total (a ∷ b ∷ c ∷ d ∷ rest) (suc k) h =
      let (xs, e, l) = frombuffer_total rest k (omega arith) in
      (np.value (record { b0 = a; b1 = b; b2 = c; b3 = d }) ∷ xs, rw e, omega arith)
  frombuffer_total (a ∷ []) k h = absurd (omega arith)
  frombuffer_total (a ∷ b ∷ []) k h = absurd (omega arith)
  frombuffer_total (a ∷ b ∷ c ∷ []) k h = absurd (omega arith)

  -- A length that is no multiple of four is refused.
  pub frombuffer_ragged :
      (blob : List ℕ) (k r : ℕ)
      → length blob ≡ k * 4 + suc r
      → r < 3
      → frombuffer np blob ≡ err bad_buffer
  unfolding frombuffer
  frombuffer_ragged [] k r h l = absurd (omega arith)
  frombuffer_ragged (a ∷ b ∷ c ∷ d ∷ rest) zero r h l = absurd (omega arith)
  frombuffer_ragged (a ∷ b ∷ c ∷ d ∷ rest) (suc k) r h l =
      rw (frombuffer_ragged rest k r (omega arith) l)
  frombuffer_ragged (a ∷ []) k r h l = refl
  frombuffer_ragged (a ∷ b ∷ []) k r h l = refl
  frombuffer_ragged (a ∷ b ∷ c ∷ []) k r h l = refl

  module _ {plain : C64 → Type 0} (exact : IsExact np plain) where
    pub frombuffer-tobytes : (xs : List F32) → frombuffer np (tobytes np xs) ≡ ok xs
    unfolding frombuffer tobytes
    frombuffer-tobytes [] = refl
    frombuffer-tobytes (x ∷ xs) = rw (frombuffer-tobytes xs, exact.value-bytes x)

    pub combine-parts : (zs : List C64) → All plain zs → combine np (map real zs) (map imag zs) ≡ zs
    unfolding combine
    combine-parts [] h = refl
    combine-parts (z ∷ zs) h = rw (exact.join-parts z h.0, combine-parts zs h.1)

  -- Every second float is a real part; from the second one on, an imaginary part.
  pub evens-interleave : (zs : List C64) → evens (interleave np zs) ≡ map real zs
  unfolding evens interleave
  evens-interleave [] = refl
  evens-interleave (z ∷ zs) = rw (evens-interleave zs)

  pub evens-cons-interleave :
      (x : F32) (zs : List C64) → evens (x ∷ interleave np zs) ≡ x ∷ map imag zs
  unfolding evens interleave
  evens-cons-interleave x [] = refl
  evens-cons-interleave x (z ∷ zs) = rw (evens-cons-interleave (imag z) zs)
