-- ===== src/Examples/Signals.antt =====
-- Signals over words, the concrete numpy of these examples.
use usrp_playground.Prelude.{
  inl, ap, arith, ◌≢◌, ℕ, ◌≡◌, ◌≤◌, ◌+◌, ◌*◌, ◌↔◌, refl, true, List, [], ◌∷◌, length, ok, ◌>>=◌,
  arith,
}
use usrp_playground.Prelude.Text.{text_eq}
use usrp_playground.Mimo.{
  Word, Numpy, IsExact, Matrix, siso, is_mimo_blob, pack_u32, unpack_u32, tobytes, frombuffer,
  interleave, channel_floats, encode_mimo, decode_channel, decode_channels, decode_mimo,
  encode_siso, encode_any, decode_any, header_len,
}
use usrp_playground.Mimo.Shape.{header_channels, header_samples, decode_mimo_iff}
use usrp_playground.Mimo.RoundTrip.{
  Encodable, decode_mimo-encode_mimo, decode_any-encode_any, mimo_word,
}

abbrev pub words : Numpy
words = record {
  F32 = Word;
  C64 = Word × Word;
  bytes = λ x. x;
  value = λ w. w;
  real = λ z. z.0;
  imag = λ z. z.1;
  join = λ i q. (i, q);
}

abbrev AnyNumber : words.C64 → Type 0
AnyNumber z = Unit {0}

words_exact : IsExact words AnyNumber
words_exact = record { value-bytes = λ x. refl; join-parts = λ z p. refl }

abbrev word : ℕ → Word
word n = record { b0 = n; b1 = 0; b2 = 0; b3 = 63 }

-- Two channels of one sample.
abbrev two : Matrix words
two = record { n_samples = 1; columns = ((word 1, word 2) ∷ []) ∷ ((word 3, word 4) ∷ []) ∷ [] }

two-Encodable : Encodable words AnyNumber two
two-Encodable = record {
  channels_pos = omega arith;
  channels_lt = omega arith;
  samples_pos = omega arith;
  samples_lt = omega arith;
  full = (refl, (refl, tt));
  exact = ((tt, tt), ((tt, tt), tt));
}

abbrev pub two_blob : List ℕ
two_blob =
    77 ∷ 73 ∷ 77 ∷ 79 ∷ 0 ∷ 0 ∷ 0 ∷ 0 ∷ 2 ∷ 0 ∷ 0 ∷ 0 ∷ 1 ∷ 0 ∷ 0 ∷ 0 ∷ 1 ∷ 0 ∷ 0 ∷ 63 ∷ 2 ∷ 0 ∷ 0
    ∷ 63 ∷ 3 ∷ 0 ∷ 0 ∷ 63 ∷ 4 ∷ 0 ∷ 0 ∷ 63 ∷ []

encode_two : encode_mimo words two ≡ ok two_blob
unfolding encode_mimo pack_u32 tobytes channel_floats interleave
encode_two = refl

decode_two : decode_mimo words two_blob ≡ ok two
unfolding decode_mimo is_mimo_blob text_eq unpack_u32 frombuffer decode_channels decode_channel
decode_two = refl

decode_mimo-encode_mimo_example : (encode_mimo words two >>= decode_mimo words) ≡ ok two
decode_mimo-encode_mimo_example = decode_mimo-encode_mimo words words_exact two two-Encodable

abbrev pair : List (Word × Word)
pair = (word 1, word 2) ∷ (word 3, word 4) ∷ []

pair-apart : word 1 ≢ mimo_word
pair-apart e = ground (arith, ap {A = Word} {B = ℕ} (λ w. w.b0) e)

decode_any-encode_any_example : (encode_any words (siso pair) >>= decode_any words) ≡ ok (siso pair)
unfolding encode_siso tobytes interleave is_mimo_blob text_eq
decode_any-encode_any_example =
    decode_any-encode_any words words_exact (siso pair) ((tt, (tt, tt)), inl pair-apart)

decode_mimo_iff_example : ((m : Matrix words) × (decode_mimo words two_blob ≡ ok m)) ↔ (
    (is_mimo_blob two_blob ≡ true)
    × (header_channels two_blob * header_samples two_blob * 8 + header_len ≤ length two_blob))
decode_mimo_iff_example = decode_mimo_iff words two_blob
