-- ===== src/Channel/Routing.antt =====
-- worker/channel.py: `_resolved_channels`, `_sock` up to the connection, and the part of
-- `_configure` that decides which devices and device channels a test uses. The settings that are
-- sent along and the daemons' answers are left out.
pub mod Configured
pub mod Defaults
use usrp_playground.Prelude.{
  ℕ, ◌+◌, Bool, true, false, not, ◌&&◌, ◌||◌, List, [], ◌∷◌, map, Option, none, some, length,
  get_elem?, if◌then◌else◌, ltb, ◌==◌, Result, ok, err, ◌>>=◌, ◌>>◌, raise_if,
}
use usrp_playground.Prelude.Int.{ℤ, pos, negsuc, is_below, to_nat}
use usrp_playground.Prelude.Text.{Text, text_eq}
use usrp_playground.Prelude.Dict.{Dict, lookup, insert}
use usrp_playground.Json.{Json, Conversion, is_truthy, to_int}
use usrp_playground.Inventory.{Python, RawChannel, RawInventory, Direction, tx, rx, text_field}
use usrp_playground.Endpoints.{Endpoint, Role, endpoints_from_inventory}

-- The `RuntimeError`s, and the `OverflowError` of `int`.
pub data Refused : Type 0 where
  no_inventory no_such_channel several_devices no_tx_gain no_rx_gain : Refused
  not_in_inventory cannot_transmit cannot_receive : Refused
  duplicate_tx_channel duplicate_rx_channel overflow_error : Refused

pub record Route : Type 0 where
  pub tx_usrp : Text
  pub tx_chan : ℤ
  pub tx_port : Option Json
  pub tx_gain : Option Json
  pub tx_power : Option Json
  pub rx_usrp : Text
  pub rx_chan : ℤ
  pub rx_port : Option Json
  pub rx_gain : Option Json

-- `side.get(key)`, where null is the same as nothing.
unfoldable pub value : Option Json → Option Json
value (some Json.null) = none
value v = v

-- `side.get(key) or None`.
unfoldable pub value_or_none : Option Json → Option Json
value_or_none none = none
value_or_none (some v) = if is_truthy v then some v else none

-- `counter.get(usrp_id, 0)`.
unfoldable pub next_index : Text → Dict ℕ → ℕ
next_index uid counter = elim (lookup uid counter) [ none ↦ 0 | some n ↦ n ]

abbrev pub count_up : Text → Dict ℕ → Dict ℕ
count_up uid counter = insert uid (next_index uid counter + 1) counter

converted : ℕ → Conversion → Result Refused ℤ
converted idx (Conversion.number z) = ok z
converted idx Conversion.invalid = ok (pos idx)
converted idx Conversion.overflow = err overflow_error

-- `_chan`, by what it returns.
unfoldable pub device_index : ℕ → Option Json → Result Refused ℤ
unfolding converted
device_index idx none = ok (pos idx)
device_index idx (some Json.null) = ok (pos idx)
device_index idx (some (Json.text [])) = ok (pos idx)
device_index idx (some v) = converted idx (to_int v)

unfoldable pub int_eq : ℤ → ℤ → Bool
int_eq (pos m) (pos n) = m == n
int_eq (negsuc m) (negsuc n) = m == n
int_eq _ _ = false

unfoldable pub int_in : ℤ → List ℤ → Bool
unfolding int_eq
int_in z [] = false
int_in z (w ∷ ws) = int_eq w z || int_in z ws

-- `len(set(zs)) != len(zs)`.
unfoldable pub has_duplicate : List ℤ → Bool
unfolding int_in
has_duplicate [] = false
has_duplicate (z ∷ zs) = int_in z zs || has_duplicate zs

all_are : Text → List Text → Bool
all_are u [] = true
all_are u (v ∷ vs) = text_eq v u && all_are u vs

-- The one device of all the routes, if they have one.
unfoldable pub only_device : List Text → Option Text
unfolding all_are
only_device [] = none
only_device (u ∷ us) = if all_are u us then some u else none

-- The port of the role that is asked for, unless the daemon does not serve it.
unfoldable pub port_for : Direction → Endpoint → Role → Result Refused ℕ
port_for tx e Role.rx = err cannot_transmit
port_for tx e _ = ok e.ports.tx_rep
port_for rx e Role.tx = err cannot_receive
port_for rx e _ = ok e.ports.rx_rep

-- `_sock`, by the port that it connects to.
unfoldable pub sock_port : Dict Endpoint → Text → Direction → Result Refused ℕ
unfolding port_for
sock_port eps uid side = elim (lookup uid eps) [
  | none ↦ err not_in_inventory
  | some e ↦ port_for side e e.role
]

-- `for c in chan_idx`, and `picked`.
unfoldable pub pick : List Route → List ℤ → Result Refused (List Route)
pick routes [] = ok []
pick routes (c ∷ cs) = elim (if is_below c 0 then none else get_elem? routes (to_nat c)) [
  | none ↦ err no_such_channel
  | some r ↦ do rest ← pick routes cs; ok (r ∷ rest)
]

is_none : Option Json → Bool
is_none none = true
is_none (some v) = false

unfoldable pub check_gains : Bool → List Route → Result Refused (Unit {0})
unfolding is_none
check_gains configure_tx [] = ok tt
check_gains configure_tx (r ∷ rs) = do
  raise_if (configure_tx && is_none r.tx_gain) no_tx_gain
  raise_if (is_none r.rx_gain) no_rx_gain
  check_gains configure_tx rs

-- The port and the device channels of each side; nothing is sent to the TX side of a listen task.
pub record Setup : Type 0 where
  pub tx_side : Option (ℕ × List ℤ)
  pub rx_side : ℕ × List ℤ

unfoldable pub set_up_tx : Dict Endpoint → Text → List ℤ → Result Refused (ℕ × List ℤ)
unfolding sock_port
set_up_tx eps uid chans = do
  port ← sock_port eps uid tx
  raise_if (has_duplicate chans) duplicate_tx_channel
  ok (port, chans)

unfoldable pub set_up_rx : Dict Endpoint → Text → List ℤ → Result Refused (ℕ × List ℤ)
unfolding sock_port
set_up_rx eps uid chans = do
  port ← sock_port eps uid rx
  raise_if (has_duplicate chans) duplicate_rx_channel
  ok (port, chans)

unfoldable pub set_up : Dict Endpoint → Bool → Text → Text → List Route → Result Refused Setup
unfolding set_up_tx set_up_rx
set_up eps true tx_usrp rx_usrp picked = do
  t ← set_up_tx eps tx_usrp (map (λ r. r.tx_chan) picked)
  r ← set_up_rx eps rx_usrp (map (λ r. r.rx_chan) picked)
  ok (record { tx_side = some t; rx_side = r })
set_up eps false tx_usrp rx_usrp picked = do
  r ← set_up_rx eps rx_usrp (map (λ r. r.rx_chan) picked)
  ok (record { tx_side = none; rx_side = r })

unfoldable pub check_devices : List Route → Result Refused (Text × Text)
unfolding only_device
check_devices picked = elim (only_device (map (λ r. r.tx_usrp) picked)) [
  | none ↦ err several_devices
  | some t ↦ elim (only_device (map (λ r. r.rx_usrp) picked)) [
    | none ↦ err several_devices
    | some r ↦ ok (t, r)
  ]
]

is_empty : List Route → Bool
is_empty [] = true
is_empty (r ∷ rs) = false

-- `_configure`, from the resolved channels on.
unfoldable pub configure_routes : Dict Endpoint → List Route → List ℤ → Bool → Result Refused Setup
unfolding is_empty pick check_devices check_gains set_up
configure_routes eps routes chan_idx configure_tx = do
  raise_if (is_empty routes) no_inventory
  picked ← pick routes chan_idx
  devices ← check_devices picked
  check_gains configure_tx picked
  set_up eps configure_tx devices.0 devices.1 picked

module _ (py : Python) where
  unfoldable pub route : ℕ → ℕ → RawChannel → Result Refused Route
  unfolding device_index text_field value value_or_none
  route tx_idx rx_idx c = do
    tx_chan ← device_index tx_idx c.tx.chan
    rx_chan ← device_index rx_idx c.rx.chan
    ok (record {
      tx_usrp = text_field py [] c.tx.usrp;
      tx_chan = tx_chan;
      tx_port = value_or_none c.tx.port;
      tx_gain = value c.tx.gain_db;
      tx_power = value c.tx.power_dbm;
      rx_usrp = text_field py [] c.rx.usrp;
      rx_chan = rx_chan;
      rx_port = value_or_none c.rx.port;
      rx_gain = value c.rx.gain_db;
    })

  -- `_resolved_channels`, with the counters reached so far.
  unfoldable pub resolve : Dict ℕ → Dict ℕ → List RawChannel → Result Refused (List Route)
  unfolding route text_field next_index
  resolve tx_counter rx_counter [] = ok []
  resolve tx_counter rx_counter (c ∷ cs) = do
    let tx_usrp = text_field py [] c.tx.usrp
    let rx_usrp = text_field py [] c.rx.usrp
    r ← route (next_index tx_usrp tx_counter) (next_index rx_usrp rx_counter) c
    rest ← resolve (count_up tx_usrp tx_counter) (count_up rx_usrp rx_counter) cs
    ok (r ∷ rest)

  -- `_configure` on the inventory file.
  unfoldable pub configure : RawInventory → List ℤ → Bool → Result Refused Setup
  unfolding resolve configure_routes endpoints_from_inventory
  configure inv chan_idx configure_tx = do
    routes ← resolve [] [] inv.channels
    configure_routes (endpoints_from_inventory py inv.usrps) routes chan_idx configure_tx
