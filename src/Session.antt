-- ===== src/Session.antt =====
-- entrypoint/auth.py: the session cookies of the administrators.
pub mod Issued
use usrp_playground.Prelude.{
  ℕ, ◌+◌, ◌*◌, Bool, true, false, not, ◌&&◌, ◌||◌, List, [], ◌∷◌, ◌++◌, Option, none, some, ◌==◌,
  if◌then◌else◌, Result, ok, err, ◌≡◌,
}
use usrp_playground.Prelude.Int.{ℤ, is_below}
use usrp_playground.Prelude.Text.{Text, is_nil, text_eq}
use usrp_playground.Prelude.Decimal.{decimal}
use usrp_playground.Json.{number, invalid, overflow, int_of_text}

-- HMAC-SHA256 by key and message, base64 and UTF-8. `none` is an exception.
pub record Codec : Type 0 where
  pub hmac : Text → Text → Text
  pub b64encode : Text → Text
  pub b64decode : Text → Option Text
  pub encode : Text → Text
  pub decode : Text → Option Text

-- `c in s`.
unfoldable pub has_code : ℕ → Text → Bool
has_code c [] = false
has_code c (d ∷ s) = d == c || has_code c s

-- What the encodings promise. The alphabet of base64 has no full stop.
pub record IsCodec (codec : Codec) : Type 0 where
  pub base64 : (b : Text) → codec.b64decode (codec.b64encode b) ≡ some b
  pub alphabet : (b : Text) → has_code 46 (codec.b64encode b) ≡ false
  pub utf8 : (t : Text) → codec.decode (codec.encode t) ≡ some t

abbrev pub session_ttl : ℕ
session_ttl = 60 * 60 * 8

pub record Info : Type 0 where
  pub username : Text
  pub exp : ℤ

pub data Unauthorized : Type 0 where
  not_authenticated session_expired : Unauthorized

-- What stands before and after the first `c`.
unfoldable pub partition : ℕ → Text → Option (Text × Text)
partition c [] = none
partition c (d ∷ s) =
    if d == c
    then some ([], s)
    else elim (partition c s) [ none ↦ none | some (p, q) ↦ some (d ∷ p, q) ]

-- `p, q = token.split(".")`.
unfoldable pub split_two : Text → Option (Text × Text)
unfolding partition has_code
split_two token = elim (partition 46 token) [
  | none ↦ none
  | some (p, q) ↦ if has_code 46 q then none else some (p, q)
]

module _ (codec : Codec) where
  unfoldable pub sign : Text → Text → Text
  sign secret payload = codec.b64encode payload ++ 46 ∷ codec.b64encode (codec.hmac secret payload)

  -- The payload once its signature is right.
  unfoldable pub read_payload : ℕ → Text → Option Info
  unfolding partition int_of_text
  read_payload now payload = elim (codec.decode payload) [
    | none ↦ none
    | some t ↦ elim (partition 124 t) [
      | none ↦ none
      | some (exp, username) ↦ elim (int_of_text exp) [
        | number z ↦ if is_below z now then none else some (record { username = username; exp = z })
        | invalid ↦ none
        | overflow ↦ none
      ]
    ]
  ]

  unfoldable pub check_signature : Text → ℕ → Text → Text → Option Info
  unfolding read_payload
  check_signature secret now payload sig =
      if text_eq sig (codec.hmac secret payload) then read_payload now payload else none

  -- `_verify`.
  unfoldable pub verify : Text → ℕ → Text → Option Info
  unfolding split_two check_signature
  verify secret now token = elim (split_two token) [
    | none ↦ none
    | some (p, s) ↦ elim (codec.b64decode p) [
      | none ↦ none
      | some payload ↦ elim (codec.b64decode s) [
        | none ↦ none
        | some sig ↦ check_signature secret now payload sig
      ]
    ]
  ]

  -- `issue_session`, by the cookie that it sets.
  unfoldable pub issue_session : Text → ℕ → Text → Text
  unfolding sign decimal
  issue_session secret now username =
      let exp = now + session_ttl in sign secret (codec.encode (decimal exp exp ++ 124 ∷ username))

  unfoldable pub require_admin : Text → ℕ → Option Text → Result Unauthorized Info
  unfolding verify
  require_admin secret now none = err not_authenticated
  require_admin secret now (some token) =
      if is_nil token
      then err not_authenticated
      else elim (verify secret now token) [ none ↦ err session_expired | some s ↦ ok s ]

-- `check_credentials`, where an empty password of the administrator lets nobody in.
unfoldable pub check_credentials : Text → Text → Text → Text → Bool
check_credentials admin_user admin_pass username password =
    not (is_nil admin_pass) && text_eq username admin_user && text_eq password admin_pass
