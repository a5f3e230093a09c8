-- ===== src/Examples/Cookies.antt =====
-- A session of an administrator.
use usrp_playground.Prelude.{◌+◌, ◌-◌, ◌≡◌, refl, false, [], ◌∷◌, ◌++◌, some, arith, ap, ok}
use usrp_playground.Prelude.Int.{pos, is_below}
use usrp_playground.Prelude.Text.{Text, codes, text_eq, strip, lstrip, rstrip, strip_end, is_space}
use usrp_playground.Session.{
  Codec, IsCodec, has_code, issue_session, require_admin, verify, split_two, partition,
  check_signature, read_payload,
}
use usrp_playground.Json.{int_of_text, digits}
use usrp_playground.Session.Issued.{IsSigned, require_admin-issue_session, require_admin-IsSigned}

-- Codes moved beyond the full stop in place of base64.
abbrev shift : Text → Text
shift [] = []
shift (c ∷ s) = (c + 47) ∷ shift s

abbrev unshift : Text → Text
unshift [] = []
unshift (c ∷ s) = (c - 47) ∷ unshift s

unshift-shift : (s : Text) → unshift (shift s) ≡ s
unshift-shift [] = refl
unshift-shift (c ∷ s) = ground (arith, unshift-shift s)

shift_has_no_stop : (s : Text) → has_code 46 (shift s) ≡ false
unfolding has_code
shift_has_no_stop [] = refl
shift_has_no_stop (c ∷ s) = ground (arith, shift_has_no_stop s)

abbrev plain : Codec
plain = record {
  hmac = λ key message. key ++ message;
  b64encode = shift;
  b64decode = λ s. some (unshift s);
  encode = λ s. s;
  decode = λ s. some s;
}

plain-IsCodec : IsCodec plain
plain-IsCodec = record {
  base64 = λ s. ap some (unshift-shift s);
  alphabet = shift_has_no_stop;
  utf8 = λ s. refl;
}

require_admin-issue_session_example :
    require_admin plain
      (codes "key")
      1500
      (some (issue_session plain (codes "key") 1000 (codes "a|b")))
    ≡ ok (record { username = codes "a|b"; exp = pos 29800 })
require_admin-issue_session_example =
    require_admin-issue_session plain plain-IsCodec (codes "key") 1000 1500 (codes "a|b")

abbrev cookie : Text
cookie = shift (codes "29800|a|b") ++ 46 ∷ shift (codes "key29800|a|b")

admitted :
    require_admin plain (codes "key") 1500 (some cookie)
    ≡ ok (record { username = codes "a|b"; exp = pos 29800 })
unfolding require_admin verify split_two partition has_code check_signature read_payload int_of_text
    digits text_eq strip lstrip rstrip strip_end is_space
admitted = refl

require_admin-IsSigned_example :
    (token : Text) × (some cookie ≡ some token)
    × IsSigned plain (codes "key") 1500 token (record { username = codes "a|b"; exp = pos 29800 })
    × (is_below (pos 29800) 1500 ≡ false)
require_admin-IsSigned_example =
    require_admin-IsSigned plain (codes "key") 1500 (some cookie)
      (record { username = codes "a|b"; exp = pos 29800 }) admitted
