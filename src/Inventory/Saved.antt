-- ===== src/Inventory/Saved.antt =====
-- entrypoint/inventory.py: the file that `write_inventory` writes, as `read_inventory` gives it.
use usrp_playground.Prelude.{ℕ, List, Option, none, some, map}
use usrp_playground.Prelude.Int.{pos}
use usrp_playground.Prelude.Text.{Text}
use usrp_playground.Json.{Json, Float}
use usrp_playground.Inventory.{RawUsrp, RawChannel, RawInventory, Usrp, Channel, Inventory}

-- The file that `json.dumps` writes, as `json.loads` reads it.
abbrev pub saved_text : Text → Option Json
saved_text t = some (Json.text t)

abbrev pub saved_float : Option Float → Option Json
saved_float none = some Json.null
saved_float (some x) = some (Json.float x)

abbrev pub saved_chan : Option ℕ → Option Json
saved_chan none = some Json.null
saved_chan (some n) = some (Json.int (pos n))

abbrev saved_ports : List Text → List Json
saved_ports ps = map Json.text ps

abbrev pub saved_usrp : Usrp → RawUsrp
saved_usrp u = record {
  id = saved_text u.id;
  label = saved_text u.label;
  identifier = saved_text u.identifier;
  args = none;
  serial = none;
  usrp_type = saved_text u.usrp_type;
  role = saved_text u.role;
  ports = saved_ports u.ports;
}

abbrev pub saved_channel : Channel → RawChannel
saved_channel c = record {
  id = saved_text c.id;
  label = saved_text c.label;
  tx = record {
    usrp = saved_text c.tx.usrp;
    port = saved_text c.tx.port;
    chan = saved_chan c.tx.chan;
    gain_db = saved_float c.tx.gain_db;
    power_dbm = saved_float c.tx.power_dbm;
  };
  rx = record {
    usrp = saved_text c.rx.usrp;
    port = saved_text c.rx.port;
    chan = saved_chan c.rx.chan;
    gain_db = saved_float c.rx.gain_db;
    power_dbm = none;
  };
}

abbrev pub saved : Inventory → RawInventory
saved i = record { usrps = map saved_usrp i.usrps; channels = map saved_channel i.channels }
