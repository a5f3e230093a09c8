-- ===== src/Session/Issued.antt =====
-- Which cookies open the administration.
use usrp_playground.Prelude.{
  ℕ, ◌==◌, ◌+◌, ◌≡◌, refl, ap, subst, ◌∙◌, Bool, true, false, [], ◌∷◌, ◌++◌, Option, none, some,
  arith, All, ltb, leb, if◌then◌else◌, ok, err,
}
use usrp_playground.Prelude.Int.{pos, is_below}
use usrp_playground.Prelude.Text.{Text, is_nil, text_eq_iff}
use usrp_playground.Prelude.Decimal.{decimal, IsDigit, decimal-IsDigit}
use usrp_playground.Json.Printed.{int_of_text-decimal}
use usrp_playground.Session.{
  Codec, IsCodec, has_code, session_ttl, Info, session_expired, partition, split_two, sign,
  read_payload, check_signature, verify, issue_session, require_admin,
}

partition-append :
    (c : ℕ) (s t : Text) → has_code c s ≡ false → partition c (s ++ c ∷ t) ≡ some (s, t)
unfolding partition has_code
partition-append c [] t h = ground arith
partition-append c (d ∷ s) t h = ground (arith, h, partition-append c s t)

abbrev IsSplit : ℕ → Text → Option (Text × Text) → Type 0
IsSplit c s none = Unit
IsSplit c s (some (p, q)) = s ≡ p ++ c ∷ q

partition-IsSplit : (c : ℕ) (s : Text) → IsSplit c s (partition c s)
unfolding partition
partition-IsSplit c [] = tt
partition-IsSplit c (d ∷ s) = step (d == c) refl (partition c s) (partition-IsSplit c s)
  where
    step :
        (b : Bool)
        → (d == c) ≡ b
        → (o : Option (Text × Text)) → IsSplit c s o
        → IsSplit c
            (d ∷ s)
            (if b then some ([], s) else elim o [ none ↦ none | some (p, q) ↦ some (d ∷ p, q) ])
    step true e o h = ap (λ x. x ∷ s) (ground (arith, e))
    step false e none h = tt
    step false e (some (p, q)) h = ap (◌∷◌ d) h

split_two-IsSplit : (token : Text) → IsSplit 46 token (split_two token)
unfolding split_two
split_two-IsSplit token = step (partition 46 token) (partition-IsSplit 46 token)
  where
    keep :
        (b : Bool) (p q : Text)
        → token ≡ p ++ 46 ∷ q
        → IsSplit 46 token (if b then none else some (p, q))
    keep true p q h = tt
    keep false p q h = h

    step :
        (o : Option (Text × Text))
        → IsSplit 46 token o
        → IsSplit 46 token
            (elim o [ none ↦ none | some (p, q) ↦ if has_code 46 q then none else some (p, q) ])
    step none h = tt
    step (some (p, q)) h = keep (has_code 46 q) p q h

-- A chain of options that ends in a value has one at each step.
some_before {ℓ κ} :
    {A : Type ℓ} {B : Type κ} (o : Option A) (f : A → Option B) {b : B}
    → (elim o [ none ↦ none | some a ↦ f a ]) ≡ some b
    → (a : A) × (o ≡ some a) × (f a ≡ some b)
some_before none f h = cc
some_before (some a) f h = (a, refl, h)

digits_have_no_bar : (s : Text) → All IsDigit s → has_code 124 s ≡ false
unfolding has_code
digits_have_no_bar [] h = refl
digits_have_no_bar (c ∷ s) h = ground (arith, h.0, digits_have_no_bar s h.1)

append_is_not_nil : (s : Text) (c : ℕ) (t : Text) → is_nil (s ++ c ∷ t) ≡ false
append_is_not_nil [] c t = refl
append_is_not_nil (d ∷ s) c t = refl

module _ (codec : Codec) (laws : IsCodec codec) where
  verify-sign :
      (secret : Text) (now : ℕ) (payload : Text)
      → verify codec secret now (sign codec secret payload) ≡ read_payload codec now payload
  unfolding verify sign split_two check_signature
  verify-sign secret now payload = ground (
    arith,
    partition-append 46 (codec.b64encode payload) (codec.b64encode (codec.hmac secret payload))
        (laws.alphabet payload),
    laws.alphabet (codec.hmac secret payload),
    laws.base64 payload,
    laws.base64 (codec.hmac secret payload),
    text_eq_iff (codec.hmac secret payload) (codec.hmac secret payload),
  )

  read_payload-issued :
      (now exp : ℕ) (username : Text)
      → read_payload codec now (codec.encode (decimal exp exp ++ 124 ∷ username))
        ≡ (if ltb exp now then none else some (record { username = username; exp = pos exp }))
  unfolding read_payload
  read_payload-issued now exp username = ground (
    arith,
    laws.utf8 (decimal exp exp ++ 124 ∷ username),
    partition-append 124 (decimal exp exp) username
        (digits_have_no_bar (decimal exp exp) (decimal-IsDigit exp exp)),
    int_of_text-decimal exp,
  )

  verify-issue_session :
      (secret : Text) (issued now : ℕ) (username : Text)
      → verify codec secret now (issue_session codec secret issued username) ≡ (
          if ltb (issued + session_ttl) now
          then none
          else some (record { username = username; exp = pos (issued + session_ttl) }))
  unfolding issue_session
  verify-issue_session secret issued now username =
      let exp = issued + session_ttl in
      verify-sign secret now (codec.encode (decimal exp exp ++ 124 ∷ username))
      ∙ read_payload-issued now exp username

  issue_session-not_nil :
      (secret : Text) (issued : ℕ) (username : Text)
      → is_nil (issue_session codec secret issued username) ≡ false
  unfolding issue_session sign
  issue_session-not_nil secret issued username = append_is_not_nil _ 46 _

  admit :
      (secret : Text) (now : ℕ) (token : Text) (v : Option Info)
      → verify codec secret now token ≡ v
      → is_nil token ≡ false
      → require_admin codec secret now (some token)
        ≡ (elim v [ none ↦ err session_expired | some s ↦ ok s ])
  unfolding require_admin
  admit secret now token v h filled = rw (filled, h)

  -- A session that was issued is good for `session_ttl` seconds, for the user that it was
  -- issued to, and for no longer.
  pub require_admin-issue_session :
      (secret : Text) (issued now : ℕ) (username : Text)
      → require_admin codec secret now (some (issue_session codec secret issued username)) ≡ (
          if leb now (issued + session_ttl)
          then ok (record { username = username; exp = pos (issued + session_ttl) })
          else err session_expired)
  require_admin-issue_session secret issued now username =
      let token = issue_session codec secret issued username in
      admit secret now token _ (verify-issue_session secret issued now username)
        (issue_session-not_nil secret issued username)
      ∙ ground arith

module _ (codec : Codec) where
  -- What a cookie must hold.
  abbrev pub IsSigned : Text → ℕ → Text → Info → Type 0
  IsSigned secret now token i =
      (p s payload : Text) × (token ≡ p ++ 46 ∷ s)
      × (codec.b64decode p ≡ some payload)
      × (codec.b64decode s ≡ some (codec.hmac secret payload))
      × (read_payload codec now payload ≡ some i)

  parts-IsSigned :
      (secret : Text) (now : ℕ) (token p s payload sig : Text) (i : Info)
      → token ≡ p ++ 46 ∷ s
      → codec.b64decode p ≡ some payload
      → codec.b64decode s ≡ some sig
      → check_signature codec secret now payload sig ≡ some i
      → IsSigned secret now token i
  unfolding check_signature
  parts-IsSigned secret now token p s payload sig i parts d e h = (
    p,
    s,
    payload,
    parts,
    d,
    ground (arith, e, h, text_eq_iff sig (codec.hmac secret payload)),
    ground (arith, h),
  )

  verify-IsSigned :
      (secret : Text) (now : ℕ) (token : Text) (i : Info)
      → verify codec secret now token ≡ some i
      → IsSigned secret now token i
  unfolding verify
  verify-IsSigned secret now token i h =
      let checked : Text → Text → Option Info = λ s payload. elim (codec.b64decode s) [
        | none ↦ none
        | some sig ↦ check_signature codec secret now payload sig
      ] in
      let (ps, split, h₁) =
        some_before (split_two token)
          (λ (ps : Text × Text). elim (codec.b64decode ps.0) [
            | none ↦ none
            | some payload ↦ checked ps.1 payload
          ])
          h in
      let (payload, d, h₂) =
        some_before (codec.b64decode ps.0) (λ payload. checked ps.1 payload) h₁ in
      let (sig, e, h₃) =
        some_before (codec.b64decode ps.1) (λ sig. check_signature codec secret now payload sig)
          h₂ in
      let parts : IsSplit 46 token (some ps) =
        subst (IsSplit 46 token) split (split_two-IsSplit token) in
      parts-IsSigned secret now token ps.0 ps.1 payload sig i parts d e h₃

  read_payload-IsFresh :
      (now : ℕ) (payload : Text) (i : Info)
      → read_payload codec now payload ≡ some i
      → is_below i.exp now ≡ false
  unfolding read_payload
  read_payload-IsFresh now payload i h = ground (arith, h)

  -- Whoever gets in has a cookie of two parts, of which the second is the signature of the first
  -- under the secret, and the first names the user and a time that is not over.
  pub require_admin-IsSigned :
      (secret : Text) (now : ℕ) (cookie : Option Text) (i : Info)
      → require_admin codec secret now cookie ≡ ok i
      → (token : Text) × (cookie ≡ some token)
        × IsSigned secret now token i
        × (is_below i.exp now ≡ false)
  unfolding require_admin
  require_admin-IsSigned secret now none i h = cc
  require_admin-IsSigned secret now (some token) i h =
      let known : verify codec secret now token ≡ some i = ground (arith, h) in
      let signed = verify-IsSigned secret now token i known in
      (token, refl, signed, read_payload-IsFresh now signed.2 i signed.6)
