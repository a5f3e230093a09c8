-- ===== src/Examples/Hardware.antt =====
-- The inventory, the endpoints and the configuration of a test.
use usrp_playground.Prelude.{ℕ, ◌≡◌, ◌⊎◌, refl, true, false, List, [], ◌∷◌, Option, none, some, ok}
use usrp_playground.Prelude.Int.{ℤ, pos}
use usrp_playground.Prelude.Text.{Text, codes, strip, lstrip, rstrip, is_space, lower, text_eq, has}
use usrp_playground.Prelude.Dict.{lookup, insert}
use usrp_playground.Json.{Json, Float, is_zero, to_int, int_of_text, digits, is_truthy}
use usrp_playground.Inventory.{
  Python, RawSide, RawChannel, RawInventory, Channel, Inventory, tx, rx, write_inventory,
  check_usrps, check_usrp, check_channels, check_channel, check_sides, check_side, check_device,
  check_role, clean_usrp, clean_ports, clean_channel, clean_tx, clean_rx, find_usrp, text_field,
  first_truthy, str, chan, num, to_float,
}
use usrp_playground.Inventory.Saved.{saved}
use usrp_playground.Inventory.Valid.{IsValid}
use usrp_playground.Inventory.Sound.{write_inventory-IsValid}
use usrp_playground.Inventory.Accepts.{write_inventory-saved}
use usrp_playground.Endpoints.{
  Endpoint, Role, endpoints_from_inventory, ports_for_index, endpoints_from, add_endpoint, endpoint,
  normalize_role,
}
use usrp_playground.Endpoints.Agree.{IsBlock, IsBelow, endpoints_from_inventory-disjoint}
use usrp_playground.Channel.Routing.{
  Route, resolve, configure, route, device_index, next_index, value, value_or_none,
}
use usrp_playground.Channel.Routing.Configured.{IsPortOf, configure-saved}
use usrp_playground.Channel.Routing.Defaults.{AllApart, resolve-AllApart}

abbrev python : Python
python = record {
  repr = λ v. codes "...";
  float_of_text = λ t. none;
  float_of_int = λ z. some (Float.finite z (is_zero z));
}

abbrev text : Text → Option Json
text t = some (Json.text t)

abbrev requested : RawInventory
requested = record {
  usrps =
      record {
        id = text (codes " left ");
        label = none;
        identifier = none;
        args = text (codes "addr=10.0.0.2");
        serial = none;
        usrp_type = text (codes "x4xx");
        role = text (codes "TX");
        ports = Json.text (codes "A ") ∷ Json.text (codes " ") ∷ [];
      }
      ∷ record {
        id = text (codes "right");
        label = text (codes "Right");
        identifier = text (codes "serial=7");
        args = none;
        serial = none;
        usrp_type = none;
        role = none;
        ports = [];
      }
      ∷ [];
  channels =
      record {
        id = some (Json.int (pos 12));
        label = none;
        tx = record {
          usrp = text (codes "left");
          port = text (codes "A");
          chan = text [];
          gain_db = some (Json.int (pos 20));
          power_dbm = none;
        };
        rx = record {
          usrp = text (codes "right");
          port = none;
          chan = text (codes "1");
          gain_db = some (Json.int (pos 0));
          power_dbm = none;
        };
      }
      ∷ [];
}

abbrev channel_12 : Channel
channel_12 = record {
  id = codes "12";
  label = codes "12";
  tx = record {
    usrp = codes "left";
    port = codes "A";
    chan = none;
    gain_db = some (Float.finite (pos 20) false);
    power_dbm = none;
  };
  rx = record {
    usrp = codes "right";
    port = [];
    chan = some 1;
    gain_db = some (Float.finite (pos 0) true);
  };
}

abbrev written : Inventory
written = record {
  usrps =
      record {
        id = codes "left";
        label = codes "left";
        identifier = codes "addr=10.0.0.2";
        usrp_type = codes "x4xx";
        role = codes "TX";
        ports = codes "A" ∷ [];
      }
      ∷ record {
        id = codes "right";
        label = codes "Right";
        identifier = codes "serial=7";
        usrp_type = [];
        role = [];
        ports = [];
      }
      ∷ [];
  channels = channel_12 ∷ [];
}

write_requested : write_inventory python requested ≡ ok written
unfolding write_inventory check_usrps check_usrp check_channels check_channel check_sides check_side
    check_device check_role clean_usrp clean_ports clean_channel clean_tx clean_rx find_usrp
    text_field first_truthy str chan num to_float to_int int_of_text digits is_truthy strip lstrip
    rstrip is_space lower text_eq has
write_requested = refl

written-IsValid : IsValid written
written-IsValid = write_inventory-IsValid python requested written write_requested

write_inventory-IsValid_example : IsValid written
write_inventory-IsValid_example = write_inventory-IsValid python requested written write_requested

write_inventory-saved_example : write_inventory python (saved written) ≡ ok written
write_inventory-saved_example = write_inventory-saved python written written-IsValid

abbrev left_endpoint : Endpoint
left_endpoint = record {
  index = 0;
  identifier = codes "addr=10.0.0.2";
  usrp_type = codes "x4xx";
  role = Role.tx;
  ports = record { tx_rep = 5600; tx_pub = 5601; rx_rep = 5602; rx_pub = 5603 };
}

abbrev right_endpoint : Endpoint
right_endpoint = record {
  index = 1;
  identifier = codes "serial=7";
  usrp_type = [];
  role = Role.txrx;
  ports = record { tx_rep = 5604; tx_pub = 5605; rx_rep = 5606; rx_pub = 5607 };
}

endpoints_requested :
    endpoints_from_inventory python requested.usrps
    ≡ (codes "left", left_endpoint) ∷ (codes "right", right_endpoint) ∷ []
unfolding endpoints_from_inventory endpoints_from add_endpoint endpoint normalize_role insert
    text_field first_truthy str ports_for_index is_truthy strip lstrip rstrip is_space lower text_eq
endpoints_requested = refl

endpoints_from_inventory-disjoint_example :
    IsBlock left_endpoint.ports
    × IsBlock right_endpoint.ports
    × (IsBelow left_endpoint.ports right_endpoint.ports
        ⊎ IsBelow right_endpoint.ports left_endpoint.ports)
endpoints_from_inventory-disjoint_example =
    endpoints_from_inventory-disjoint python requested.usrps (codes "left") (codes "right")
      left_endpoint right_endpoint (unfold lookup text_eq in rw endpoints_requested)
      (unfold lookup text_eq in rw endpoints_requested) cc

abbrev SetUp12 : Type 0
SetUp12 =
    (p q : ℕ) × (z w : ℤ) × IsPortOf written.usrps tx (codes "left") p
    × IsPortOf written.usrps rx (codes "right") q
    × (configure python (saved written) (pos 0 ∷ []) true
        ≡ ok (record { tx_side = some (p, z ∷ []); rx_side = (q, w ∷ []) }))

configure-saved_example : SetUp12
configure-saved_example =
    configure-saved python written 0 channel_12 written-IsValid refl (λ e. cc) (λ e. cc)

abbrev open_side : Text → RawSide
open_side u = record { usrp = text u; port = none; chan = none; gain_db = none; power_dbm = none }

abbrev open_channel : ℕ → Text → Text → RawChannel
open_channel n u v = record {
  id = some (Json.int (pos n));
  label = none;
  tx = open_side u;
  rx = open_side v;
}

abbrev three_channels : List RawChannel
three_channels =
    open_channel 1 (codes "a") (codes "b")
    ∷ open_channel 2 (codes "a") (codes "c")
    ∷ open_channel 3 (codes "b") (codes "c")
    ∷ []

abbrev open_route : Text → ℕ → Text → ℕ → Route
open_route u m v n = record {
  tx_usrp = u;
  tx_chan = pos m;
  tx_port = none;
  tx_gain = none;
  tx_power = none;
  rx_usrp = v;
  rx_chan = pos n;
  rx_port = none;
  rx_gain = none;
}

abbrev three_routes : List Route
three_routes =
    open_route (codes "a") 0 (codes "b") 0
    ∷ open_route (codes "a") 1 (codes "c") 0
    ∷ open_route (codes "b") 0 (codes "c") 1
    ∷ []

resolve_three : resolve python [] [] three_channels ≡ ok three_routes
unfolding resolve route device_index next_index value value_or_none lookup insert text_field str
    strip lstrip rstrip is_space text_eq
resolve_three = refl

resolve-AllApart_example : AllApart tx three_routes
resolve-AllApart_example =
    resolve-AllApart python tx three_channels three_routes (tt, (tt, (tt, tt))) resolve_three
