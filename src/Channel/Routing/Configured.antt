-- ===== src/Channel/Routing/Configured.antt =====
-- What `_configure` makes of an inventory that the gateway has written.
use usrp_playground.Prelude.{
  ℕ, zero, suc, ◌+◌, ◌*◌, ◌≡◌, ◌≢◌, refl, subst, ap, true, List, [], ◌∷◌, map, Option, none, some,
  arith, All, get_elem?, get_elem?-All, ok,
}
use usrp_playground.Prelude.Int.{ℤ, pos}
use usrp_playground.Prelude.Text.{Text, codes, lower, text_eq_iff}
use usrp_playground.Prelude.Dict.{Dict, lookup}
use usrp_playground.Prelude.Distinct.{IsDistinct}
use usrp_playground.Json.{Json, Float, is_truthy, to_int}
use usrp_playground.Inventory.{
  Python, RawUsrp, Usrp, Channel, Inventory, Direction, tx, rx, text_field, first_truthy, str,
}
use usrp_playground.Inventory.Saved.{
  saved, saved_usrp, saved_channel, saved_chan, saved_float, saved_text,
}
use usrp_playground.Inventory.Valid.{
  IsStripped, IsUsrp, IsIn-All, IsSide, IsChannel, IsValid, opposite, usrp_ids,
}
use usrp_playground.Endpoints.{
  Endpoint, Role, ports_for_index, role_of_text, normalize_role, endpoint, endpoints_from_inventory,
}
use usrp_playground.Endpoints.Agree.{endpoints_from-finds}
use usrp_playground.Channel.Routing.{
  Route, value, value_or_none, next_index, count_up, converted, device_index, port_for, sock_port,
  pick, only_device, check_devices, check_gains, has_duplicate, int_in, set_up_tx, set_up_rx,
  set_up, all_are, is_none, is_empty, configure_routes, route, resolve, configure,
}

device_index-saved : (idx : ℕ) (n : Option ℕ) → (z : ℤ) × (device_index idx (saved_chan n) ≡ ok z)
unfolding device_index to_int converted
device_index-saved idx none = (pos idx, refl)
device_index-saved idx (some n) = (pos n, refl)

value-saved : (x : Option Float) → x ≢ none → (v : Json) × (value (saved_float x) ≡ some v)
unfolding value
value-saved none h = absurd (h refl)
value-saved (some x) h = (Json.float x, refl)

abbrev side_usrp : Direction → Channel → Text
side_usrp tx c = c.tx.usrp
side_usrp rx c = c.rx.usrp

-- The device at position `n` has the four ports from 5600 + 4 * n on: the replies of its TX daemon are
-- on the first, those of its RX daemon on the third.
abbrev offset : Direction → ℕ
offset tx = 0
offset rx = 2

abbrev pub IsPortOf : List Usrp → Direction → Text → ℕ → Type 0
IsPortOf us side uid p =
    (n : ℕ) × (u : Usrp) × (get_elem? us n ≡ some u)
    × (u.id ≡ uid)
    × (p ≡ 5600 + 4 * n + offset side)

abbrev reply_port : Direction → Endpoint → ℕ
reply_port tx e = e.ports.tx_rep
reply_port rx e = e.ports.rx_rep

role_of_text-allows :
    (side : Direction) (t : Text) (e : Endpoint)
    → t ≢ opposite side
    → port_for side e (role_of_text t) ≡ ok (reply_port side e)
unfolding port_for
role_of_text-allows tx t e h =
    ground (arith, text_eq_iff t (codes "tx"), text_eq_iff t (codes "rx"))
role_of_text-allows rx t e h =
    ground (arith, text_eq_iff t (codes "tx"), text_eq_iff t (codes "rx"))

sock_port-found :
    (eps : Dict Endpoint) (uid : Text) (side : Direction) (e : Endpoint) (r : Role) (p : ℕ)
    → lookup uid eps ≡ some e
    → e.role ≡ r
    → port_for side e r ≡ ok p
    → sock_port eps uid side ≡ ok p
unfolding sock_port
sock_port-found eps uid side e r p found served opened = ground (arith, found, served, opened)

module _ (py : Python) where
  normalize_role-saved :
      (r : Text) → IsStripped r → normalize_role py (saved_text r) ≡ role_of_text (lower r)
  unfolding normalize_role first_truthy str is_truthy
  normalize_role-saved [] h = refl
  normalize_role-saved (c ∷ r) h = ap (λ t. role_of_text (lower t)) h

  reply_port-place :
      (side : Direction) (k n : ℕ) (u : RawUsrp)
      → k ≡ 0 + n
      → reply_port side (endpoint py k u) ≡ 5600 + 4 * n + offset side
  unfolding endpoint ports_for_index
  reply_port-place tx k n u h = omega (arith, h)
  reply_port-place rx k n u h = omega (arith, h)

  sock_port-saved :
      (us : List Usrp) (side : Direction) (uid port : Text)
      → All IsUsrp us
      → IsDistinct (usrp_ids us)
      → IsSide us side uid port
      → (p : ℕ) × IsPortOf us side uid p
        × (sock_port (endpoints_from_inventory py (map saved_usrp us)) uid side ≡ ok p)
  unfolding endpoints_from_inventory
  sock_port-saved us side uid port valid distinct (u, here, same, declared, role) =
      let (k, n, at, place, found) = endpoints_from-finds py 0 [] us u valid distinct here in
      let e = endpoint py k (saved_usrp u) in
      let opened = role_of_text-allows side (lower u.role) e role in
      let p : ℕ = reply_port side e in
      let served : e.role ≡ role_of_text (lower u.role) =
        unfold endpoint in normalize_role-saved u.role (IsIn-All u us here valid).serves in
      (
        p,
        (n, u, at, same, reply_port-place side k n (saved_usrp u) place),
        subst (λ t. sock_port (endpoints_from_inventory py (map saved_usrp us)) t side ≡ ok p) same
            (sock_port-found (endpoints_from_inventory py (map saved_usrp us)) u.id side e
              (role_of_text (lower u.role)) p found served opened),
      )

  route_with : Channel → ℤ → ℤ → Route
  unfolding value
  route_with c z w = record {
    tx_usrp = c.tx.usrp;
    tx_chan = z;
    tx_port = value_or_none (saved_text c.tx.port);
    tx_gain = value (saved_float c.tx.gain_db);
    tx_power = value (saved_float c.tx.power_dbm);
    rx_usrp = c.rx.usrp;
    rx_chan = w;
    rx_port = value_or_none (saved_text c.rx.port);
    rx_gain = value (saved_float c.rx.gain_db);
  }

  route-saved :
      (i j : ℕ) (us : List Usrp) (c : Channel)
      → IsChannel us c
      → (z : ℤ) × (w : ℤ) × (route py i j (saved_channel c) ≡ ok (route_with c z w))
  unfolding route route_with text_field str
  route-saved i j us c good =
      let (z, e) = device_index-saved i c.tx.chan in
      let (w, d) = device_index-saved j c.rx.chan in
      (z, w, rw (e, d, good.tx_names.0, good.rx_names.0))

  IsRoute : List Channel → List Route → Type 0
  IsRoute cs rs =
      (n : ℕ) (c : Channel)
      → get_elem? cs n ≡ some c
      → (z : ℤ) × (w : ℤ) × (get_elem? rs n ≡ some (route_with c z w))

  IsRoute-cons :
      (c : Channel) (cs : List Channel) (z w : ℤ) (rs : List Route)
      → IsRoute cs rs
      → IsRoute (c ∷ cs) (route_with c z w ∷ rs)
  unfolding IsRoute
  IsRoute-cons c cs z w rs each zero d h = (
    z,
    w,
    subst (λ e. some (route_with c z w) ≡ some (route_with e z w)) (ground (arith, h)) refl,
  )
  IsRoute-cons c cs z w rs each (suc n) d h = each n d h

  resolve-saved :
      (s t : Dict ℕ) (us : List Usrp) (cs : List Channel)
      → All (IsChannel us) cs
      → (rs : List Route) × (resolve py s t (map saved_channel cs) ≡ ok rs) × IsRoute cs rs
  unfolding resolve IsRoute
  resolve-saved s t us [] good = ([], refl, λ n c h. cc)
  resolve-saved s t us (c ∷ cs) good =
      let tx_usrp = text_field py [] (saved_text c.tx.usrp) in
      let rx_usrp = text_field py [] (saved_text c.rx.usrp) in
      let (z, w, e) = route-saved (next_index tx_usrp s) (next_index rx_usrp t) us c good.0 in
      let (rs, d, each) = resolve-saved (count_up tx_usrp s) (count_up rx_usrp t) us cs good.1 in
      (route_with c z w ∷ rs, rw (e, d), IsRoute-cons c cs z w rs each)

  pick-one :
      (routes : List Route) (n : ℕ) (r : Route)
      → get_elem? routes n ≡ some r
      → pick routes (pos n ∷ []) ≡ ok (r ∷ [])
  unfolding pick
  pick-one routes n r found = ground (arith, found)

  configure_one :
      (eps : Dict Endpoint) (routes : List Route) (n p q : ℕ) (r : Route) (v w : Json)
      → get_elem? routes n ≡ some r
      → r.tx_gain ≡ some v
      → r.rx_gain ≡ some w
      → sock_port eps r.tx_usrp tx ≡ ok p
      → sock_port eps r.rx_usrp rx ≡ ok q
      → configure_routes eps routes (pos n ∷ []) true
        ≡ ok (record { tx_side = some (p, r.tx_chan ∷ []); rx_side = (q, r.rx_chan ∷ []) })
  unfolding configure_routes pick check_devices only_device all_are check_gains is_none is_empty
      set_up set_up_tx set_up_rx has_duplicate int_in
  configure_one eps [] n p q r v w found tx_gain rx_gain tx_port rx_port = cc
  configure_one eps (s ∷ routes) n p q r v w found tx_gain rx_gain tx_port rx_port =
      rw (pick-one (s ∷ routes) n r found, tx_gain, rx_gain, tx_port, rx_port)

  -- A channel of a valid inventory, written and read back, that has both gains can always be
  -- configured: the worker connects to the port on which the TX daemon of its TX device replies, 5600 and
  -- four times the position of the device, and to that of the RX daemon of its RX device, which is two
  -- above such a number, and sets up exactly these two, each with one device channel.
  pub configure-saved :
      (i : Inventory) (n : ℕ) (c : Channel)
      → IsValid i
      → get_elem? i.channels n ≡ some c
      → c.tx.gain_db ≢ none
      → c.rx.gain_db ≢ none
      → (p q : ℕ) × (z w : ℤ) × IsPortOf i.usrps tx c.tx.usrp p
        × IsPortOf i.usrps rx c.rx.usrp q
        × (configure py (saved i) (pos n ∷ []) true
            ≡ ok (record { tx_side = some (p, z ∷ []); rx_side = (q, w ∷ []) }))
  unfolding configure route_with IsRoute
  configure-saved i n c valid found tx_gain rx_gain =
      let good = get_elem?-All (IsChannel i.usrps) i.channels valid.channels n c found in
      let (p, tx_place, sends) =
        sock_port-saved i.usrps tx c.tx.usrp c.tx.port valid.usrps valid.ids good.sends in
      let (q, rx_place, hears) =
        sock_port-saved i.usrps rx c.rx.usrp c.rx.port valid.usrps valid.ids good.hears in
      let (rs, resolved, each) = resolve-saved [] [] i.usrps i.channels valid.channels in
      let (z, w, here) = each n c found in
      let (v, tx_set) = value-saved c.tx.gain_db tx_gain in
      let (u, rx_set) = value-saved c.rx.gain_db rx_gain in
      (
        p,
        q,
        z,
        w,
        tx_place,
        rx_place,
        rw resolved (
            configure_one (endpoints_from_inventory py (map saved_usrp i.usrps)) rs n p q
              (route_with c z w) v u here tx_set rx_set sends hears),
      )
