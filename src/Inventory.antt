-- ===== src/Inventory.antt =====
-- entrypoint/inventory.py: `write_inventory` with its validation, and what is read back.
-- The lists of the request hold objects, and a lookup of a missing key gives `none`.
pub mod Saved
pub mod Valid
pub mod Devices
pub mod Sound
pub mod Accepts
use usrp_playground.Prelude.{
  ℕ, zero, suc, ◌+◌, ◌/◌, ◌%◌, Bool, true, false, not, ◌&&◌, List, [], ◌∷◌, ◌++◌, map, Option, none,
  some, ltb, if◌then◌else◌, Result, ok, err, ◌>>=◌, ◌>>◌, raise_if,
}
use usrp_playground.Prelude.Int.{ℤ, pos, negsuc, is_below, to_nat}
use usrp_playground.Prelude.Text.{Text, codes, has, is_nil, text_eq, lower, strip}
use usrp_playground.Prelude.Decimal.{decimal}
use usrp_playground.Json.{Json, Float, Conversion, is_truthy, to_int}

-- Python's printing and reading of floats, and its printing of lists and dicts. `none` of a text
-- is a `ValueError`, of a number an `OverflowError`.
pub record Python : Type 0 where
  pub repr : Json → Text
  pub float_of_text : Text → Option Float
  pub float_of_int : ℤ → Option Float

-- The exceptions of `write_inventory`: all but the last are a `ValueError` with a message.
pub data Invalid : Type 0 where
  no_usrp_id duplicate_usrp no_identifier duplicate_identifier : Invalid
  no_channel_id duplicate_channel unknown_usrp undeclared_port : Invalid
  cannot_transmit cannot_receive bad_device_channel negative_device_channel : Invalid
  overflow_error : Invalid

pub record RawUsrp : Type 0 where
  pub id : Option Json
  pub label : Option Json
  pub identifier : Option Json
  pub args : Option Json
  pub serial : Option Json
  pub usrp_type : Option Json
  pub role : Option Json
  pub ports : List Json

pub record RawSide : Type 0 where
  pub usrp : Option Json
  pub port : Option Json
  pub chan : Option Json
  pub gain_db : Option Json
  pub power_dbm : Option Json

pub record RawChannel : Type 0 where
  pub id : Option Json
  pub label : Option Json
  pub tx : RawSide
  pub rx : RawSide

pub record RawInventory : Type 0 where
  pub usrps : List RawUsrp
  pub channels : List RawChannel

pub record Usrp : Type 0 where
  pub id : Text
  pub label : Text
  pub identifier : Text
  pub usrp_type : Text
  pub role : Text
  pub ports : List Text

pub record TxSide : Type 0 where
  pub usrp : Text
  pub port : Text
  pub chan : Option ℕ
  pub gain_db : Option Float
  pub power_dbm : Option Float

pub record RxSide : Type 0 where
  pub usrp : Text
  pub port : Text
  pub chan : Option ℕ
  pub gain_db : Option Float

pub record Channel : Type 0 where
  pub id : Text
  pub label : Text
  pub tx : TxSide
  pub rx : RxSide

pub record Inventory : Type 0 where
  pub usrps : List Usrp
  pub channels : List Channel

pub data Direction : Type 0 where
  tx rx : Direction

unfoldable pub find_usrp : Text → List Usrp → Option Usrp
find_usrp uid [] = none
find_usrp uid (u ∷ us) = if text_eq u.id uid then some u else find_usrp uid us

-- The role check of one side of a channel.
unfoldable pub check_role : Direction → Text → Result Invalid (Unit {0})
check_role tx role = raise_if (text_eq role (codes "rx")) cannot_transmit
check_role rx role = raise_if (text_eq role (codes "tx")) cannot_receive

unfoldable pub check_device : Usrp → Direction → Text → Result Invalid (Unit {0})
unfolding check_role
check_device u side port = do
  raise_if (not (is_nil port) && not (has port u.ports)) undeclared_port
  check_role side (lower (strip u.role))

-- `for side, uid, port in […]`.
unfoldable pub check_side : List Usrp → Direction → Text → Text → Result Invalid (Unit {0})
unfolding find_usrp check_device
check_side us side uid port = elim (find_usrp uid us) [
  | none ↦ err unknown_usrp
  | some u ↦ check_device u side port
]

module _ (py : Python) where
  -- `str(v)`.
  unfoldable pub str : Json → Text
  unfolding decimal
  str Json.null = codes "None"
  str (Json.bool true) = codes "True"
  str (Json.bool false) = codes "False"
  str (Json.int (pos n)) = decimal n n
  str (Json.int (negsuc n)) = 45 ∷ decimal (suc n) (suc n)
  str (Json.text t) = t
  str v = py.repr v

  -- `str(d.get(key, default)).strip()`.
  unfoldable pub text_field : Text → Option Json → Text
  unfolding str
  text_field default none = strip default
  text_field default (some v) = strip (str v)

  -- `str(u.get("identifier") or u.get("args") or u.get("serial") or "").strip()`, from the left.
  unfoldable pub first_truthy : List (Option Json) → Text
  unfolding str
  first_truthy [] = []
  first_truthy (none ∷ vs) = first_truthy vs
  first_truthy (some v ∷ vs) = if is_truthy v then strip (str v) else first_truthy vs

  unfoldable pub clean_ports : List Json → List Text
  unfolding str
  clean_ports [] = []
  clean_ports (p ∷ ps) =
      if is_nil (strip (str p)) then clean_ports ps else strip (str p) ∷ clean_ports ps

  unfoldable pub clean_usrp : RawUsrp → Text → Text → Usrp
  unfolding text_field clean_ports
  clean_usrp u uid identifier = record {
    id = uid;
    label = text_field uid u.label;
    identifier = identifier;
    usrp_type = text_field [] u.usrp_type;
    role = text_field [] u.role;
    ports = clean_ports u.ports;
  }

  -- One round of the first loop, by what it appends.
  unfoldable pub check_usrp : List Text → List Text → RawUsrp → Result Invalid Usrp
  unfolding text_field first_truthy clean_usrp
  check_usrp seen_ids seen_ident u = do
    let uid = text_field [] u.id
    raise_if (is_nil uid) no_usrp_id
    raise_if (has uid seen_ids) duplicate_usrp
    let identifier = first_truthy (u.identifier ∷ u.args ∷ u.serial ∷ [])
    raise_if (is_nil identifier) no_identifier
    raise_if (has identifier seen_ident) duplicate_identifier
    ok (clean_usrp u uid identifier)

  unfoldable pub check_usrps : List Text → List Text → List RawUsrp → Result Invalid (List Usrp)
  unfolding check_usrp
  check_usrps seen_ids seen_ident [] = ok []
  check_usrps seen_ids seen_ident (u ∷ us) = do
    v ← check_usrp seen_ids seen_ident u
    rest ← check_usrps (v.id ∷ seen_ids) (v.identifier ∷ seen_ident) us
    ok (v ∷ rest)

  -- `float(v)`: `ok none` is a `TypeError` or `ValueError`.
  unfoldable pub to_float : Json → Result Invalid (Option Float)
  to_float (Json.bool b) = ok (some (Float.finite (pos (if b then 1 else 0)) (not b)))
  to_float (Json.int z) = elim (py.float_of_int z) [
    | none ↦ err overflow_error
    | some x ↦ ok (some x)
  ]
  to_float (Json.float x) = ok (some x)
  to_float (Json.text t) = ok (py.float_of_text t)
  to_float v = ok none

  -- `_num`.
  unfoldable pub num : Option Json → Result Invalid (Option Float)
  unfolding to_float
  num none = ok none
  num (some (Json.text [])) = ok none
  num (some Json.null) = ok none
  num (some v) = to_float v

  device_channel : Conversion → Result Invalid (Option ℕ)
  device_channel Conversion.invalid = err bad_device_channel
  device_channel Conversion.overflow = err overflow_error
  device_channel (Conversion.number z) = do
    raise_if (is_below z 0) negative_device_channel
    ok (some (to_nat z))

  -- `_chan`.
  unfoldable pub chan : Option Json → Result Invalid (Option ℕ)
  unfolding device_channel to_int
  chan none = ok none
  chan (some (Json.text [])) = ok none
  chan (some Json.null) = ok none
  chan (some v) = device_channel (to_int v)

  unfoldable pub clean_tx : RawSide → Result Invalid TxSide
  unfolding chan num text_field
  clean_tx s = do
    device ← chan s.chan
    gain ← num s.gain_db
    power ← num s.power_dbm
    ok (record {
      usrp = text_field [] s.usrp;
      port = text_field [] s.port;
      chan = device;
      gain_db = gain;
      power_dbm = power;
    })

  unfoldable pub clean_rx : RawSide → Result Invalid RxSide
  unfolding chan num text_field
  clean_rx s = do
    device ← chan s.chan
    gain ← num s.gain_db
    ok (record {
      usrp = text_field [] s.usrp;
      port = text_field [] s.port;
      chan = device;
      gain_db = gain;
    })

  unfoldable pub check_sides : List Usrp → RawChannel → Result Invalid (Unit {0})
  unfolding check_side text_field
  check_sides us c = do
    check_side us tx (text_field [] c.tx.usrp) (text_field [] c.tx.port)
    check_side us rx (text_field [] c.rx.usrp) (text_field [] c.rx.port)

  unfoldable pub clean_channel : Text → RawChannel → Result Invalid Channel
  unfolding text_field clean_tx clean_rx
  clean_channel cid c = do
    tx_side ← clean_tx c.tx
    rx_side ← clean_rx c.rx
    ok (record { id = cid; label = text_field cid c.label; tx = tx_side; rx = rx_side })

  -- One round of the second loop, by what it appends.
  unfoldable pub check_channel : List Usrp → List Text → RawChannel → Result Invalid Channel
  unfolding text_field check_sides clean_channel
  check_channel us seen c = do
    let cid = text_field [] c.id
    raise_if (is_nil cid) no_channel_id
    raise_if (has cid seen) duplicate_channel
    check_sides us c
    clean_channel cid c

  unfoldable pub check_channels :
      List Usrp → List Text → List RawChannel → Result Invalid (List Channel)
  unfolding check_channel
  check_channels us seen [] = ok []
  check_channels us seen (c ∷ cs) = do
    d ← check_channel us seen c
    rest ← check_channels us (d.id ∷ seen) cs
    ok (d ∷ rest)

  -- `write_inventory`, by what it writes and returns.
  unfoldable pub write_inventory : RawInventory → Result Invalid Inventory
  unfolding check_usrps check_channels
  write_inventory request = do
    us ← check_usrps [] [] request.usrps
    cs ← check_channels us [] request.channels
    ok (record { usrps = us; channels = cs })
