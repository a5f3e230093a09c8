-- ===== src/Endpoints.antt =====
-- usrp_testbed_library/endpoints.py: the ports of each daemon, from the inventory.
pub mod Agree
use usrp_playground.Prelude.{
  ℕ, ◌+◌, ◌*◌, Bool, true, false, ◌||◌, List, [], ◌∷◌, Option, none, some, if◌then◌else◌,
}
use usrp_playground.Prelude.Text.{Text, codes, is_nil, text_eq, lower, strip}
use usrp_playground.Prelude.Dict.{Dict, insert}
use usrp_playground.Json.{Json, is_truthy}
use usrp_playground.Inventory.{Python, RawUsrp, str, text_field, first_truthy}

abbrev pub base_port : ℕ
base_port = 5600

abbrev pub ports_per_usrp : ℕ
ports_per_usrp = 4

pub record Ports : Type 0 where
  pub tx_rep : ℕ
  pub tx_pub : ℕ
  pub rx_rep : ℕ
  pub rx_pub : ℕ

unfoldable pub ports_for_index : ℕ → Ports
ports_for_index i =
    let base = base_port + ports_per_usrp * i in
    record { tx_rep = base; tx_pub = base + 1; rx_rep = base + 2; rx_pub = base + 3 }

pub data Role : Type 0 where
  tx rx txrx : Role

abbrev pub role_of_text : Text → Role
role_of_text r = if text_eq r (codes "tx") then tx else if text_eq r (codes "rx") then rx else txrx

pub record Endpoint : Type 0 where
  pub index : ℕ
  pub identifier : Text
  pub usrp_type : Text
  pub role : Role
  pub ports : Ports

module _ (py : Python) where
  -- `normalize_role`, with `str(role or "")`.
  unfoldable pub normalize_role : Option Json → Role
  unfolding first_truthy
  normalize_role role = role_of_text (lower (first_truthy py (role ∷ [])))

  unfoldable pub endpoint : ℕ → RawUsrp → Endpoint
  unfolding normalize_role
  endpoint i u = record {
    index = i;
    identifier = first_truthy py (u.identifier ∷ u.args ∷ u.serial ∷ []);
    usrp_type = text_field py [] u.usrp_type;
    role = normalize_role u.role;
    ports = ports_for_index i;
  }

  -- One round of the loop, for the device at position `i`.
  unfoldable pub add_endpoint : ℕ → RawUsrp → Dict Endpoint → Dict Endpoint
  unfolding endpoint
  add_endpoint i u out =
      let uid = text_field py [] u.id in if is_nil uid then out else insert uid (endpoint i u) out

  unfoldable pub endpoints_from : ℕ → Dict Endpoint → List RawUsrp → Dict Endpoint
  unfolding add_endpoint
  endpoints_from i out [] = out
  endpoints_from i out (u ∷ us) = endpoints_from (i + 1) (add_endpoint i u out) us

  unfoldable pub endpoints_from_inventory : List RawUsrp → Dict Endpoint
  unfolding endpoints_from
  endpoints_from_inventory us = endpoints_from 0 [] us
