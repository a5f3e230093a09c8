-- ===== src/Inventory/Accepts.antt =====
-- What `write_inventory` makes of a valid inventory.
use usrp_playground.Prelude.{
  ℕ, ◌≡◌, ◌≢◌, refl, ◌⊎◌, true, false, List, [], ◌∷◌, map, Option, none, some, arith, All, ok,
  subst, sym,
}
use usrp_playground.Prelude.Text.{Text, codes, has, is_nil, lower, text_eq_iff}
use usrp_playground.Prelude.Distinct.{IsDistinct, IsUnseen, IsUnseen-cons, IsUnseen-nil}
use usrp_playground.Json.{Json, Float, to_int, is_truthy}
use usrp_playground.Inventory.{
  Python, Usrp, Channel, Inventory, Direction, tx, rx, text_field, first_truthy, clean_ports,
  clean_usrp, check_usrp, check_usrps, check_role, check_device, check_side, find_usrp, clean_tx,
  clean_rx, check_sides, clean_channel, check_channel, check_channels, write_inventory,
  device_channel, str, chan, num, to_float,
}
use usrp_playground.Inventory.Saved.{saved, saved_usrp, saved_channel, saved_float, saved_chan}
use usrp_playground.Inventory.Valid.{
  IsStripped, IsName, IsUsrp, IsSide, IsChannel, IsValid, usrp_ids, identifiers, channel_ids,
  IsIn-find_usrp, IsIn-All, opposite,
}

check_role-passes :
    (side : Direction) (role : Text) → role ≢ opposite side → check_role side role ≡ ok tt
unfolding check_role
check_role-passes tx role h = ground (arith, text_eq_iff role (codes "rx"))
check_role-passes rx role h = ground (arith, text_eq_iff role (codes "tx"))

check_device-passes :
    (u : Usrp) (side : Direction) (port : Text)
    → IsUsrp u
    → (is_nil port ≡ true) ⊎ (has port u.ports ≡ true)
    → lower u.role ≢ opposite side
    → check_device u side port ≡ ok tt
unfolding check_device
check_device-passes u side port valid declared role = ground (
  arith,
  declared,
  subst (λ r. check_role side (lower r) ≡ ok tt) (sym valid.serves)
      (check_role-passes side (lower u.role) role),
)

module _ (us : List Usrp) where
  check_side-passes :
      (side : Direction) (uid port : Text)
      → All IsUsrp us
      → IsDistinct (usrp_ids us)
      → IsSide us side uid port
      → check_side us side uid port ≡ ok tt
  unfolding check_side
  check_side-passes side uid port valid distinct (u, here, same, declared, role) =
      let found : find_usrp uid us ≡ some u =
        subst (λ t. find_usrp t us ≡ some u) same (IsIn-find_usrp u us distinct here) in
      rw (found, check_side)
        (check_device-passes u side port (IsIn-All u us here valid) declared role)

module _ (py : Python) where
  clean_ports-saved : (ps : List Text) → All IsName ps → clean_ports py (map Json.text ps) ≡ ps
  unfolding clean_ports str
  clean_ports-saved [] h = refl
  clean_ports-saved (p ∷ ps) h = ground (arith, clean_ports-saved ps h.1)

  check_usrp-saved :
      (seen_ids seen_ident : List Text) (u : Usrp)
      → IsUsrp u
      → has u.id seen_ids ≡ false
      → has u.identifier seen_ident ≡ false
      → check_usrp py seen_ids seen_ident (saved_usrp u) ≡ ok u
  unfolding check_usrp clean_usrp text_field first_truthy str is_truthy
  check_usrp-saved seen_ids seen_ident u valid new new_ident =
      ground (arith, valid, new, new_ident, clean_ports-saved u.ports valid.wired)

  check_usrps-saved :
      (seen_ids seen_ident : List Text) (us : List Usrp)
      → All IsUsrp us
      → IsDistinct (usrp_ids us)
      → IsUnseen seen_ids (usrp_ids us)
      → IsDistinct (identifiers us)
      → IsUnseen seen_ident (identifiers us)
      → check_usrps py seen_ids seen_ident (map saved_usrp us) ≡ ok us
  unfolding check_usrps
  check_usrps-saved seen_ids seen_ident [] valid d n d' n' = refl
  check_usrps-saved seen_ids seen_ident (u ∷ us) valid d n d' n' =
      rw (check_usrp-saved seen_ids seen_ident u valid.0 n.0 n'.0) (
        rw (
          check_usrps-saved (u.id ∷ seen_ids) (u.identifier ∷ seen_ident) us valid.1 d.1
            (ground (arith, IsUnseen-cons u.id seen_ids (usrp_ids us))) d'.1
            (ground (arith, IsUnseen-cons u.identifier seen_ident (identifiers us)))))

  num-saved : (x : Option Float) → num py (saved_float x) ≡ ok x
  unfolding num to_float
  num-saved none = refl
  num-saved (some x) = refl

  chan-saved : (n : Option ℕ) → chan py (saved_chan n) ≡ ok n
  unfolding chan device_channel to_int
  chan-saved none = refl
  chan-saved (some n) = ground arith

  text_field-saved :
      (default t : Text) → IsStripped t → text_field py default (some (Json.text t)) ≡ t
  unfolding text_field str
  text_field-saved default t h = h

  clean_tx-saved :
      (c : Channel)
      → IsStripped c.tx.usrp × IsStripped c.tx.port
      → clean_tx py (saved_channel c).tx ≡ ok c.tx
  unfolding clean_tx
  clean_tx-saved c (usrp, port) = ground (
    arith,
    chan-saved c.tx.chan,
    num-saved c.tx.gain_db,
    num-saved c.tx.power_dbm,
    text_field-saved [] c.tx.usrp usrp,
    text_field-saved [] c.tx.port port,
  )

  clean_rx-saved :
      (c : Channel)
      → IsStripped c.rx.usrp × IsStripped c.rx.port
      → clean_rx py (saved_channel c).rx ≡ ok c.rx
  unfolding clean_rx
  clean_rx-saved c (usrp, port) = ground (
    arith,
    chan-saved c.rx.chan,
    num-saved c.rx.gain_db,
    text_field-saved [] c.rx.usrp usrp,
    text_field-saved [] c.rx.port port,
  )

  check_sides-saved :
      (us : List Usrp) (c : Channel)
      → All IsUsrp us
      → IsDistinct (usrp_ids us)
      → IsChannel us c
      → check_sides py us (saved_channel c) ≡ ok tt
  unfolding check_sides
  check_sides-saved us c valid distinct good =
      rw
        (
          text_field-saved [] c.tx.usrp good.tx_names.0,
          text_field-saved [] c.tx.port good.tx_names.1,
          text_field-saved [] c.rx.usrp good.rx_names.0,
          text_field-saved [] c.rx.port good.rx_names.1,
          check_side-passes us tx c.tx.usrp c.tx.port valid distinct good.sends,
        )
        (check_side-passes us rx c.rx.usrp c.rx.port valid distinct good.hears)

  check_channel-saved :
      (us : List Usrp) (seen : List Text) (c : Channel)
      → All IsUsrp us
      → IsDistinct (usrp_ids us)
      → IsChannel us c
      → has c.id seen ≡ false
      → check_channel py us seen (saved_channel c) ≡ ok c
  unfolding check_channel clean_channel
  check_channel-saved us seen c valid distinct good new =
      let named = text_field-saved [] c.id good.named.1 in
      let labelled = text_field-saved c.id c.label good.labelled in
      rw (
        named,
        good.named.0,
        new,
        check_sides-saved us c valid distinct good,
        clean_tx-saved c good.tx_names,
        clean_rx-saved c good.rx_names,
        labelled,
      )

  check_channels-saved :
      (us : List Usrp) (seen : List Text) (cs : List Channel)
      → All IsUsrp us
      → IsDistinct (usrp_ids us)
      → All (IsChannel us) cs
      → IsDistinct (channel_ids cs)
      → IsUnseen seen (channel_ids cs)
      → check_channels py us seen (map saved_channel cs) ≡ ok cs
  unfolding check_channels
  check_channels-saved us seen [] valid distinct good d n = refl
  check_channels-saved us seen (c ∷ cs) valid distinct good d n =
      rw (check_channel-saved us seen c valid distinct good.0 n.0) (
        rw (
          check_channels-saved us (c.id ∷ seen) cs valid distinct good.1 d.1
            (ground (arith, IsUnseen-cons c.id seen (channel_ids cs)))))

  -- `write_inventory` accepts every valid inventory, read back from its file, and changes nothing.
  pub write_inventory-saved : (i : Inventory) → IsValid i → write_inventory py (saved i) ≡ ok i
  unfolding write_inventory
  write_inventory-saved i v =
      rw
        (check_usrps-saved [] [] i.usrps v.usrps v.ids (IsUnseen-nil _) v.identifiers
          (IsUnseen-nil _))
        (rw (
          check_channels-saved i.usrps [] i.channels v.usrps v.ids v.channels v.channel_ids
            (IsUnseen-nil _)))
