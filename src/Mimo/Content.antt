-- ===== src/Mimo/Content.antt =====
-- mimo_format.py: which bytes of a blob each decoded number comes from.
use usrp_playground.Prelude.{
  ℕ, Bool, zero, suc, ◌+◌, ◌-◌, ◌*◌, ◌%◌, ◌≡◌, refl, sym, subst, ap, ◌∙◌, true, false, List, [],
  ◌∷◌, ◌++◌, take-append_drop, some, length, take, drop, get_elem?, arith, ok, if◌then◌else◌, ◌==◌,
  Result-cases, inl, inr, drop-drop,
}
use usrp_playground.Mimo.{
  Numpy, Word, Matrix, evens, frombuffer, combine, decode_channel, decode_channels, decode_mimo,
  decode_siso,
}
use usrp_playground.Mimo.Shape.{header_channels, header_samples}

-- The four bytes from an offset on.
abbrev pub IsWordAt : List ℕ → ℕ → Word → Type 0
IsWordAt blob off v = (rest : List ℕ) × (drop off blob ≡ v.b0 ∷ v.b1 ∷ v.b2 ∷ v.b3 ∷ rest)

get_elem?-drop :
    {A : Type 0} (n i : ℕ) (xs : List A) → get_elem? (drop n xs) i ≡ get_elem? xs (n + i)
get_elem?-drop zero i xs = subst (λ k. get_elem? xs i ≡ get_elem? xs k) {x = i} (omega arith) refl
get_elem?-drop (suc n) i [] = refl
get_elem?-drop (suc n) i (x ∷ xs) =
    subst (λ k. get_elem? (drop n xs) i ≡ get_elem? (x ∷ xs) k) {x = suc (n + i)} (omega arith)
      (get_elem?-drop n i xs)

get_elem?-take :
    {A : Type 0} (n i : ℕ) (xs : List A) (x : A)
    → get_elem? (take n xs) i ≡ some x
    → get_elem? xs i ≡ some x
get_elem?-take zero i xs x e = absurd (ground (arith, e))
get_elem?-take (suc n) i [] x e = e
get_elem?-take (suc n) zero (y ∷ xs) x e = e
get_elem?-take (suc n) (suc i) (y ∷ xs) x e = get_elem?-take n i xs x e

evens-get :
    {A : Type 0} (xs : List A) (i : ℕ) (x : A)
    → get_elem? (evens xs) i ≡ some x
    → get_elem? xs (i * 2) ≡ some x
unfolding evens
evens-get [] i x e = absurd (ground (arith, e))
evens-get (y ∷ []) zero x e = e
evens-get (y ∷ []) (suc i) x e = absurd (ground (arith, e))
evens-get (y ∷ z ∷ xs) zero x e = e
evens-get (y ∷ z ∷ xs) (suc i) x e =
    subst (λ n. get_elem? (y ∷ z ∷ xs) n ≡ some x) {x = suc (suc (i * 2))} (omega arith)
      (evens-get xs i x e)

-- What is a prefix of a part is one of the whole.
take-IsWordAt :
    (n off : ℕ) (blob : List ℕ) (v : Word) → IsWordAt (take n blob) off v → IsWordAt blob off v
take-IsWordAt n zero blob v (rest, e) =
    (rest ++ drop n blob, sym (take-append_drop n blob) ∙ ap (λ t. t ++ drop n blob) e)
take-IsWordAt zero (suc off) blob v (rest, e) = absurd (ground (arith, e))
take-IsWordAt (suc n) (suc off) [] v (rest, e) = absurd (ground (arith, e))
take-IsWordAt (suc n) (suc off) (x ∷ xs) v h = take-IsWordAt n off xs v h

drop-IsWordAt :
    (n off : ℕ) (blob : List ℕ) (v : Word)
    → IsWordAt (drop n blob) off v
    → IsWordAt blob (n + off) v
drop-IsWordAt n off blob v (rest, e) = (rest, sym (drop-drop n off blob) ∙ e)

offset : (ch n i : ℕ) → 16 + ((0 + ch) * n * 2 + i * 2) * 4 ≡ 16 + (ch * n + i) * 8
offset ch n i = omega arith

module _ (np : Numpy) where
  open np use {F32, C64, value, join}

  -- The number whose parts are the two floats from an offset on.
  abbrev pub IsSampleAt : List ℕ → ℕ → C64 → Type 0
  IsSampleAt blob off z =
      (v w : Word) × IsWordAt blob off v
      × IsWordAt blob (off + 4) w
      × (z ≡ join (value v) (value w))

  frombuffer-get :
      (blob : List ℕ) (xs : List F32) (k : ℕ) (x : F32)
      → frombuffer np blob ≡ ok xs
      → get_elem? xs k ≡ some x
      → (v : Word) × IsWordAt blob (k * 4) v × (x ≡ value v)
  unfolding frombuffer
  frombuffer-get [] xs k x e h = absurd (ground (arith, e, h))
  frombuffer-get (a ∷ []) xs k x e h = absurd (ground (arith, e))
  frombuffer-get (a ∷ b ∷ []) xs k x e h = absurd (ground (arith, e))
  frombuffer-get (a ∷ b ∷ c ∷ []) xs k x e h = absurd (ground (arith, e))
  frombuffer-get (a ∷ b ∷ c ∷ d ∷ rest) xs zero x e h = elim (Result-cases (frombuffer np rest)) [
    | inl (f, q) ↦ absurd (ground (arith, e, q))
    | inr (ys, q) ↦
        let w : Word = record { b0 = a; b1 = b; b2 = c; b3 = d } in
        let all : xs ≡ value w ∷ ys = ground (arith, e, q) in
        let first : some (value w) ≡ some x = subst (λ t. get_elem? t 0 ≡ some x) all h in
        (w, (rest, refl), ground (arith, first))
  ]
  frombuffer-get (a ∷ b ∷ c ∷ d ∷ rest) xs (suc k) x e h =
      elim (Result-cases (frombuffer np rest)) [
        | inl (f, q) ↦ absurd (ground (arith, e, q))
        | inr (ys, q) ↦
            let w : Word = record { b0 = a; b1 = b; b2 = c; b3 = d } in
            let all : xs ≡ value w ∷ ys = ground (arith, e, q) in
            let (v, at, same) =
              frombuffer-get rest ys k x q (subst (λ t. get_elem? t (suc k) ≡ some x) all h) in
            (
              v,
              subst (λ n. IsWordAt (a ∷ b ∷ c ∷ d ∷ rest) n v) {x = suc (suc (suc (suc (k * 4))))}
                  (omega arith) at,
              same,
            )
      ]

  combine-get :
      (is qs : List F32) (i : ℕ) (z : C64)
      → get_elem? (combine np is qs) i ≡ some z
      → (a b : F32) × (get_elem? is i ≡ some a) × (get_elem? qs i ≡ some b) × (z ≡ join a b)
  unfolding combine
  combine-get [] qs i z h = absurd (ground (arith, h))
  combine-get (a ∷ is) [] i z h = absurd (ground (arith, h))
  combine-get (a ∷ is) (b ∷ qs) zero z h = (a, b, refl, refl, ground (arith, h))
  combine-get (a ∷ is) (b ∷ qs) (suc i) z h = combine-get is qs i z h

  -- Two floats next to each other.
  pair-get :
      (blob : List ℕ) (xs : List F32) (k : ℕ) (a b : F32)
      → frombuffer np blob ≡ ok xs
      → get_elem? xs k ≡ some a
      → get_elem? xs (k + 1) ≡ some b
      → IsSampleAt blob (k * 4) (join a b)
  pair-get blob xs k a b e h g =
      let (v, at, same) = frombuffer-get blob xs k a e h in
      let (w, next, also) = frombuffer-get blob xs (k + 1) b e g in
      (
        v,
        w,
        at,
        subst (λ n. IsWordAt blob n w) {x = (k + 1) * 4} (omega arith) next,
        ap (λ t. join t b) same ∙ ap (λ t. join (value v) t) also,
      )

  -- `raw` is the floats, or a part of them.
  whole_pairs-get :
      (xs : List F32) (even : Bool) (n k : ℕ) (x : F32)
      → get_elem? (if even then xs else take n xs) k ≡ some x
      → get_elem? xs k ≡ some x
  whole_pairs-get xs true n k x h = h
  whole_pairs-get xs false n k x h = get_elem?-take n k xs x h

  pub decode_siso-get :
      (blob : List ℕ) (s : List C64) (i : ℕ) (z : C64)
      → decode_siso np blob ≡ ok s
      → get_elem? s i ≡ some z
      → IsSampleAt blob (i * 8) z
  unfolding decode_siso
  decode_siso-get blob s i z e h = elim (Result-cases (frombuffer np blob)) [
    | inl (f, q) ↦ absurd (ground (arith, e, q))
    | inr (xs, q) ↦
        let even : Bool = length xs % 2 == 0 in
        let last : ℕ = length xs - 1 in
        let raw : List F32 = if even then xs else take last xs in
        let all : s ≡ combine np (evens raw) (evens (drop 1 raw)) = ground (arith, e, q) in
        let (a, b, first, second, joined) =
          combine-get (evens raw) (evens (drop 1 raw)) i z
            (subst (λ t. get_elem? t i ≡ some z) all h) in
        let re = whole_pairs-get xs even last (i * 2) a (evens-get raw i a first) in
        let im =
          whole_pairs-get xs even last (1 + i * 2) b
            (sym (get_elem?-drop 1 (i * 2) raw) ∙ evens-get (drop 1 raw) i b second) in
        subst (IsSampleAt blob (i * 8)) (sym joined) (
          subst (λ n. IsSampleAt blob n (join a b)) {x = i * 2 * 4} (omega arith)
            (pair-get blob xs (i * 2) a b q re
              (subst (λ n. get_elem? xs n ≡ some b) {x = 1 + i * 2} (omega arith) im)))
  ]

  decode_channels-get :
      (raw : List F32) (n ch k j : ℕ) (col : List C64)
      → get_elem? (decode_channels np raw n ch k) j ≡ some col
      → col ≡ decode_channel np raw n ((ch + j) * n * 2)
  unfolding decode_channels
  decode_channels-get raw n ch zero j col h = absurd (ground (arith, h))
  decode_channels-get raw n ch (suc k) zero col h =
      subst (λ m. col ≡ decode_channel np raw n (m * n * 2)) {x = ch} (omega arith)
        (ground (arith, h))
  decode_channels-get raw n ch (suc k) (suc j) col h =
      subst (λ m. col ≡ decode_channel np raw n (m * n * 2)) {x = suc ch + j} (omega arith)
        (decode_channels-get raw n (suc ch) k j col h)

  decode_channel-get :
      (raw : List F32) (n base i : ℕ) (z : C64)
      → get_elem? (decode_channel np raw n base) i ≡ some z
      → (a b : F32) × (get_elem? raw (base + i * 2) ≡ some a)
        × (get_elem? raw (base + i * 2 + 1) ≡ some b)
        × (z ≡ join a b)
  unfolding decode_channel
  decode_channel-get raw n base i z h =
      let evn = take (n * 2) (drop base raw) in
      let odd = take (n * 2 - 1) (drop (base + 1) raw) in
      let (a, b, first, second, joined) = combine-get (evens evn) (evens odd) i z h in
      let re = get_elem?-take (n * 2) (i * 2) (drop base raw) a (evens-get evn i a first) in
      let im =
        get_elem?-take (n * 2 - 1) (i * 2) (drop (base + 1) raw) b (evens-get odd i b second) in
      (
        a,
        b,
        sym (get_elem?-drop base (i * 2) raw) ∙ re,
        subst (λ k. get_elem? raw k ≡ some b) {x = base + 1 + i * 2} (omega arith)
            (sym (get_elem?-drop (base + 1) (i * 2) raw) ∙ im),
        joined,
      )

  IsSampleAt-whole :
      (n m off : ℕ) (blob : List ℕ) (z : C64)
      → IsSampleAt (take n (drop m blob)) off z
      → IsSampleAt blob (m + off) z
  IsSampleAt-whole n m off blob z (v, w, at, next, joined) = (
    v,
    w,
    drop-IsWordAt m off blob v (take-IsWordAt n off (drop m blob) v at),
    subst (λ k. IsWordAt blob k w) {x = m + (off + 4)} (omega arith)
        (drop-IsWordAt m (off + 4) blob w (take-IsWordAt n (off + 4) (drop m blob) w next)),
    joined,
  )

  decode_mimo_parts :
      (blob : List ℕ) (m : Matrix np)
      → decode_mimo np blob ≡ ok m
      → let c = header_channels blob in
        let n = header_samples blob in
        (raw : List F32) × (frombuffer np (take (c * n * 8) (drop 16 blob)) ≡ ok raw)
        × (m.columns ≡ decode_channels np raw n 0 c)
  unfolding decode_mimo
  decode_mimo_parts blob m e =
      let payload = take (header_channels blob * header_samples blob * 8) (drop 16 blob) in
      elim (Result-cases (frombuffer np payload)) [
        | inl (f, q) ↦ absurd (ground (arith, e, q))
        | inr (raw, q) ↦ (raw, q, ground (arith, e, q))
      ]

  pub decode_mimo-get :
      (blob : List ℕ) (m : Matrix np) (ch i : ℕ) (col : List C64) (z : C64)
      → decode_mimo np blob ≡ ok m
      → get_elem? m.columns ch ≡ some col
      → get_elem? col i ≡ some z
      → IsSampleAt blob (16 + (ch * header_samples blob + i) * 8) z
  decode_mimo-get blob m ch i col z e g h =
      let c = header_channels blob in
      let n = header_samples blob in
      let (raw, q, columns) = decode_mimo_parts blob m e in
      let same =
        decode_channels-get raw n 0 c ch col (subst (λ t. get_elem? t ch ≡ some col) columns g) in
      let base = (0 + ch) * n * 2 in
      let (a, b, re, im, joined) =
        decode_channel-get raw n base i z (subst (λ t. get_elem? t i ≡ some z) same h) in
      let at = pair-get (take (c * n * 8) (drop 16 blob)) raw (base + i * 2) a b q re im in
      subst (IsSampleAt blob (16 + (ch * n + i) * 8)) (sym joined) (
        subst (λ k. IsSampleAt blob k (join a b)) {x = 16 + (base + i * 2) * 4} (offset ch n i)
          (IsSampleAt-whole (c * n * 8) 16 ((base + i * 2) * 4) blob (join a b) at))
