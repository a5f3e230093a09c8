-- ===== src/Inventory/Devices.antt =====
-- The devices that `write_inventory` writes, when it writes.
use usrp_playground.Prelude.{
  ◌≡◌, refl, false, List, [], ◌∷◌, Option, none, some, arith, All, ok, >>=-eq-ok,
}
use usrp_playground.Prelude.Text.{Text, has, strip, lstrip, rstrip, strip-strip}
use usrp_playground.Prelude.Distinct.{IsDistinct, IsUnseen, IsUnseen-cons}
use usrp_playground.Json.{Json}
use usrp_playground.Inventory
use usrp_playground.Inventory.{
  Python, RawUsrp, RawSide, RawInventory, TxSide, RxSide, clean_tx, clean_rx, RawChannel, Usrp,
  Channel, Inventory, Invalid, text_field, first_truthy, ◌>>=◌, clean_ports, clean_usrp, check_usrp,
  check_channel, check_sides, clean_channel, ◌>>◌, raise_if, check_usrps, check_channels,
  check_side, check_role, check_device, write_inventory, find_usrp, Direction, tx, rx,
}
use usrp_playground.Inventory.Valid.{IsStripped, IsName, IsUsrp, usrp_ids, identifiers}

module _ (py : Python) where
  pub text_field-IsStripped :
      (default : Text) (v : Option Json) → IsStripped (text_field py default v)
  unfolding text_field
  text_field-IsStripped default none = strip-strip default
  text_field-IsStripped default (some v) = strip-strip _

  first_truthy-IsStripped : (vs : List (Option Json)) → IsStripped (first_truthy py vs)
  unfolding first_truthy
  first_truthy-IsStripped [] = unfold strip lstrip rstrip in refl
  first_truthy-IsStripped (none ∷ vs) = first_truthy-IsStripped vs
  first_truthy-IsStripped (some v ∷ vs) =
      ground (arith, first_truthy-IsStripped vs, strip-strip (Inventory.str py v))

  clean_ports-IsName : (ps : List Json) → All IsName (clean_ports py ps)
  unfolding clean_ports
  clean_ports-IsName [] = tt
  clean_ports-IsName (p ∷ ps) =
      ground (arith, clean_ports-IsName ps, strip-strip (Inventory.str py p))

  clean_usrp-IsUsrp :
      (u : RawUsrp) (uid identifier : Text)
      → IsName uid
      → IsName identifier
      → IsUsrp (clean_usrp py u uid identifier)
  unfolding clean_usrp
  clean_usrp-IsUsrp u uid identifier named identified = record {
    named = named;
    labelled = text_field-IsStripped uid u.label;
    identified = identified;
    typed = text_field-IsStripped [] u.usrp_type;
    serves = text_field-IsStripped [] u.role;
    wired = clean_ports-IsName u.ports;
  }

  abbrev pub Checked : List Text → List Text → List Usrp → Type 0
  Checked seen_ids seen_ident us =
      All IsUsrp us
      × (IsDistinct (usrp_ids us) × IsUnseen seen_ids (usrp_ids us))
      × (IsDistinct (identifiers us) × IsUnseen seen_ident (identifiers us))

  check_usrp-IsUsrp :
      (seen_ids seen_ident : List Text) (raw : RawUsrp) (u : Usrp)
      → check_usrp py seen_ids seen_ident raw ≡ ok u
      → IsUsrp u × (has u.id seen_ids ≡ false) × (has u.identifier seen_ident ≡ false)
  unfolding check_usrp clean_usrp
  check_usrp-IsUsrp seen_ids seen_ident raw u h =
      let identifier = first_truthy py (raw.identifier ∷ raw.args ∷ raw.serial ∷ []) in
      ground (
        arith,
        text_field-IsStripped [] raw.id,
        first_truthy-IsStripped (raw.identifier ∷ raw.args ∷ raw.serial ∷ []),
        text_field-IsStripped (text_field py [] raw.id) raw.label,
        text_field-IsStripped [] raw.usrp_type,
        text_field-IsStripped [] raw.role,
        clean_ports-IsName raw.ports,
      )

  pub check_usrps-Checked :
      (seen_ids seen_ident : List Text) (raw : List RawUsrp) (us : List Usrp)
      → check_usrps py seen_ids seen_ident raw ≡ ok us
      → Checked seen_ids seen_ident us
  unfolding check_usrps
  check_usrps-Checked seen_ids seen_ident [] us h = ground arith
  check_usrps-Checked seen_ids seen_ident (r ∷ raw) us h =
      let (u, e, h₁) =
        >>=-eq-ok (check_usrp py seen_ids seen_ident r)
          (λ (u : Usrp).
            check_usrps py (u.id ∷ seen_ids) (u.identifier ∷ seen_ident) raw >>= λ rest.
            ok (u ∷ rest))
          h in
      let (rest, d, same) =
        >>=-eq-ok (check_usrps py (u.id ∷ seen_ids) (u.identifier ∷ seen_ident) raw)
          (λ (rest : List Usrp). ok (u ∷ rest)) h₁ in
      ground (
        arith,
        check_usrp-IsUsrp seen_ids seen_ident r u e,
        check_usrps-Checked (u.id ∷ seen_ids) (u.identifier ∷ seen_ident) raw rest d,
        IsUnseen-cons u.id seen_ids (usrp_ids rest),
        IsUnseen-cons u.identifier seen_ident (identifiers rest),
        same,
      )
