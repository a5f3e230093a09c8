-- ===== src/Inventory/Sound.antt =====
-- What `write_inventory` writes, when it writes.
use usrp_playground.Prelude.{
  ◌≡◌, refl, ◌⊎◌, true, false, not, ◌&&◌, List, [], ◌∷◌, Option, none, some, arith, All, ok, err,
  Result, ◌≢◌, subst, >>=-eq-ok, raise_if-passed,
}
use usrp_playground.Prelude.Text.{Text, codes, has, is_nil, lower, strip, text_eq_iff}
use usrp_playground.Prelude.Distinct.{IsDistinct, IsUnseen, IsUnseen-cons}
use usrp_playground.Inventory.{
  Python, RawSide, RawInventory, TxSide, RxSide, clean_tx, clean_rx, RawChannel, Usrp, Channel,
  Inventory, Invalid, text_field, ◌>>=◌, check_channel, check_sides, clean_channel, ◌>>◌, raise_if,
  check_usrps, check_channels, check_side, check_role, check_device, write_inventory, find_usrp,
  Direction, tx, rx,
}
use usrp_playground.Inventory.Valid.{
  IsUsrp, IsSide, IsChannel, IsValid, channel_ids, find_usrp-IsIn, opposite, IsIn-All,
}
use usrp_playground.Inventory.Devices.{text_field-IsStripped, check_usrps-Checked}

check_role-allows :
    (side : Direction) (role : Text) → check_role side role ≡ ok tt → role ≢ opposite side
unfolding check_role
check_role-allows tx role h = ground (arith, text_eq_iff role (codes "rx"))
check_role-allows rx role h = ground (arith, text_eq_iff role (codes "tx"))

check_device-allows :
    (u : Usrp) (side : Direction) (port : Text)
    → IsUsrp u
    → check_device u side port ≡ ok tt
    → ((is_nil port ≡ true) ⊎ (has port u.ports ≡ true)) × (lower u.role ≢ opposite side)
unfolding check_device
check_device-allows u side port valid h =
    let (declared, h₁) =
      raise_if-passed (not (is_nil port) && not (has port u.ports)) Invalid.undeclared_port
        (check_role side (lower (strip u.role))) h in
    (
      ground (arith, declared),
      subst (λ r. lower r ≢ opposite side) valid.serves
          (check_role-allows side (lower (strip u.role)) h₁),
    )

check_side-IsSide :
    (us : List Usrp) (side : Direction) (uid port : Text)
    → All IsUsrp us
    → check_side us side uid port ≡ ok tt
    → IsSide us side uid port
unfolding check_side
check_side-IsSide us side uid port valid h = by_lookup (find_usrp uid us) refl h
  where
    by_lookup :
        (found : Option Usrp)
        → find_usrp uid us ≡ found
        → ◌≡◌ {A = Result Invalid (Unit {0})}
            (elim found [ none ↦ err Invalid.unknown_usrp | some u ↦ check_device u side port ])
            (ok tt)
        → IsSide us side uid port
    by_lookup none e d = cc
    by_lookup (some u) e d =
        let (here, same) = find_usrp-IsIn uid us u e in
        let (declared, role) = check_device-allows u side port (IsIn-All u us here valid) d in
        (u, here, same, declared, role)

module _ (py : Python) where
  clean_tx-names :
      (s : RawSide) (t : TxSide)
      → clean_tx py s ≡ ok t
      → (t.usrp ≡ text_field py [] s.usrp) × (t.port ≡ text_field py [] s.port)
  unfolding clean_tx
  clean_tx-names s t h = ground arith

  clean_rx-names :
      (s : RawSide) (t : RxSide)
      → clean_rx py s ≡ ok t
      → (t.usrp ≡ text_field py [] s.usrp) × (t.port ≡ text_field py [] s.port)
  unfolding clean_rx
  clean_rx-names s t h = ground arith

  clean_channel-names :
      (cid : Text) (raw : RawChannel) (c : Channel)
      → clean_channel py cid raw ≡ ok c
      → (c.id ≡ cid)
        × (c.label ≡ text_field py cid raw.label)
        × ((c.tx.usrp ≡ text_field py [] raw.tx.usrp) × (c.tx.port ≡ text_field py [] raw.tx.port))
        × ((c.rx.usrp ≡ text_field py [] raw.rx.usrp) × (c.rx.port ≡ text_field py [] raw.rx.port))
  unfolding clean_channel
  clean_channel-names cid raw c h =
      let (t, e, h₁) =
        >>=-eq-ok (clean_tx py raw.tx)
          (λ (t : TxSide). clean_rx py raw.rx >>= λ r.
            ok (record { id = cid; label = text_field py cid raw.label; tx = t; rx = r }))
          h in
      let (r, d, same) =
        >>=-eq-ok (clean_rx py raw.rx)
          (λ (r : RxSide).
            ok (record { id = cid; label = text_field py cid raw.label; tx = t; rx = r }))
          h₁ in
      let (tx_usrp, tx_port) = clean_tx-names raw.tx t e in
      let (rx_usrp, rx_port) = clean_rx-names raw.rx r d in
      ground (arith, same, tx_usrp, tx_port, rx_usrp, rx_port)

  check_sides-IsSide :
      (us : List Usrp) (raw : RawChannel)
      → All IsUsrp us
      → check_sides py us raw ≡ ok tt
      → IsSide us tx (text_field py [] raw.tx.usrp) (text_field py [] raw.tx.port)
        × IsSide us rx (text_field py [] raw.rx.usrp) (text_field py [] raw.rx.port)
  unfolding check_sides
  check_sides-IsSide us raw valid h =
      let sent = check_side us tx (text_field py [] raw.tx.usrp) (text_field py [] raw.tx.port) in
      let heard = check_side us rx (text_field py [] raw.rx.usrp) (text_field py [] raw.rx.port) in
      let (tt, d, e) = >>=-eq-ok sent (λ _. heard) h in
      (check_side-IsSide us tx _ _ valid d, check_side-IsSide us rx _ _ valid e)

  check_channel-IsChannel :
      (us : List Usrp) (seen : List Text) (raw : RawChannel) (c : Channel)
      → All IsUsrp us
      → check_channel py us seen raw ≡ ok c
      → IsChannel us c × (has c.id seen ≡ false)
  unfolding check_channel
  check_channel-IsChannel us seen raw c valid h =
      let cid = text_field py [] raw.id in
      let made = clean_channel py cid raw in
      let sides = check_sides py us raw in
      let (named, h₁) =
        raise_if-passed (is_nil cid) Invalid.no_channel_id
          (raise_if (has cid seen) Invalid.duplicate_channel >> (sides >> made)) h in
      let (new, h₂) = raise_if-passed (has cid seen) Invalid.duplicate_channel (sides >> made) h₁ in
      let (tt, d, e) = >>=-eq-ok sides (λ _. made) h₂ in
      let (sends, hears) = check_sides-IsSide us raw valid d in
      let (same, labelled, tx_names, rx_names) = clean_channel-names cid raw c e in
      let stripped = text_field-IsStripped py in
      (
        record {
          named = rw same (named, stripped [] raw.id);
          labelled = rw labelled (stripped cid raw.label);
          tx_names =
              rw tx_names.0 (rw tx_names.1 (stripped [] raw.tx.usrp, stripped [] raw.tx.port));
          rx_names =
              rw rx_names.0 (rw rx_names.1 (stripped [] raw.rx.usrp, stripped [] raw.rx.port));
          sends = rw tx_names.0 (rw tx_names.1 sends);
          hears = rw rx_names.0 (rw rx_names.1 hears);
        },
        rw same new,
      )

  check_channels-Checked :
      (us : List Usrp) (seen : List Text) (raw : List RawChannel) (cs : List Channel)
      → All IsUsrp us
      → check_channels py us seen raw ≡ ok cs
      → All (IsChannel us) cs × IsDistinct (channel_ids cs) × IsUnseen seen (channel_ids cs)
  unfolding check_channels
  check_channels-Checked us seen [] cs valid h = ground arith
  check_channels-Checked us seen (r ∷ raw) cs valid h =
      let (c, e, h₁) =
        >>=-eq-ok (check_channel py us seen r)
          (λ (c : Channel). check_channels py us (c.id ∷ seen) raw >>= λ rest. ok (c ∷ rest)) h in
      let (rest, d, same) =
        >>=-eq-ok (check_channels py us (c.id ∷ seen) raw) (λ (rest : List Channel). ok (c ∷ rest))
          h₁ in
      ground (
        arith,
        check_channel-IsChannel us seen r c valid e,
        check_channels-Checked us (c.id ∷ seen) raw rest valid d,
        IsUnseen-cons c.id seen (channel_ids rest),
        same,
      )

  -- What `write_inventory` writes is valid: names are stripped and not empty, ids and identifiers
  -- unique, and each side of each channel names a device of the list, a port of it or none, and a
  -- direction that the device's role allows.
  pub write_inventory-IsValid :
      (raw : RawInventory) (i : Inventory) → write_inventory py raw ≡ ok i → IsValid i
  unfolding write_inventory
  write_inventory-IsValid raw i h =
      let (us, e, h₁) =
        >>=-eq-ok (check_usrps py [] [] raw.usrps)
          (λ (us : List Usrp). check_channels py us [] raw.channels >>= λ cs.
            ok (record { usrps = us; channels = cs }))
          h in
      let (cs, d, same) =
        >>=-eq-ok (check_channels py us [] raw.channels)
          (λ (cs : List Channel). ok (record { usrps = us; channels = cs })) h₁ in
      let good = check_usrps-Checked py [] [] raw.usrps us e in
      let wired = check_channels-Checked us [] raw.channels cs good.0 d in
      ground (arith, good, wired, same)
