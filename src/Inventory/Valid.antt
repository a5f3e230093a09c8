-- ===== src/Inventory/Valid.antt =====
-- What a valid inventory is, said of the lists as wholes.
use usrp_playground.Prelude.{
  ◌≡◌, ◌≢◌, subst, ◌⊎◌, inl, inr, true, false, List, [], ◌∷◌, some, arith, All,
}
use usrp_playground.Prelude.Text.{Text, codes, has, is_nil, lower, strip, text_eq_iff}
use usrp_playground.Prelude.Distinct.{IsDistinct}
use usrp_playground.Inventory.{Usrp, Channel, Inventory, Direction, tx, rx, find_usrp}

abbrev pub IsStripped : Text → Type 0
IsStripped t = strip t ≡ t

abbrev pub IsName : Text → Type 0
IsName t = (is_nil t ≡ false) × IsStripped t

abbrev pub usrp_ids : List Usrp → List Text
usrp_ids [] = []
usrp_ids (u ∷ us) = u.id ∷ usrp_ids us

abbrev pub identifiers : List Usrp → List Text
identifiers [] = []
identifiers (u ∷ us) = u.identifier ∷ identifiers us

abbrev pub channel_ids : List Channel → List Text
channel_ids [] = []
channel_ids (c ∷ cs) = c.id ∷ channel_ids cs

pub record IsUsrp (u : Usrp) : Type 0 where
  pub named : IsName u.id
  pub labelled : IsStripped u.label
  pub identified : IsName u.identifier
  pub typed : IsStripped u.usrp_type
  pub serves : IsStripped u.role
  pub wired : All IsName u.ports

abbrev pub IsIn : Usrp → List Usrp → Type 0
IsIn u [] = ⊥
IsIn u (v ∷ us) = (v ≡ u) ⊎ IsIn u us

-- The role that forbids a direction.
abbrev pub opposite : Direction → Text
opposite tx = codes "rx"
opposite rx = codes "tx"

-- A side of a channel names one of the devices, one of its ports or none, and a direction that
-- the device's role allows.
abbrev pub IsSide : List Usrp → Direction → Text → Text → Type 0
IsSide us side uid port =
    (u : Usrp) × IsIn u us
    × (u.id ≡ uid)
    × ((is_nil port ≡ true) ⊎ (has port u.ports ≡ true))
    × (lower u.role ≢ opposite side)

pub record IsChannel (us : List Usrp) (c : Channel) : Type 0 where
  pub named : IsName c.id
  pub labelled : IsStripped c.label
  pub tx_names : IsStripped c.tx.usrp × IsStripped c.tx.port
  pub rx_names : IsStripped c.rx.usrp × IsStripped c.rx.port
  pub sends : IsSide us tx c.tx.usrp c.tx.port
  pub hears : IsSide us rx c.rx.usrp c.rx.port

pub record IsValid (i : Inventory) : Type 0 where
  pub usrps : All IsUsrp i.usrps
  pub ids : IsDistinct (usrp_ids i.usrps)
  pub identifiers : IsDistinct (identifiers i.usrps)
  pub channels : All (IsChannel i.usrps) i.channels
  pub channel_ids : IsDistinct (channel_ids i.channels)

pub IsIn-All : (u : Usrp) (us : List Usrp) → IsIn u us → All IsUsrp us → IsUsrp u
IsIn-All u [] h a = absurd h
IsIn-All u (v ∷ us) (inl e) a = subst IsUsrp e a.0
IsIn-All u (v ∷ us) (inr h) a = IsIn-All u us h a.1

pub find_usrp-IsIn :
    (uid : Text) (us : List Usrp) (u : Usrp) → find_usrp uid us ≡ some u → IsIn u us × (u.id ≡ uid)
unfolding find_usrp
find_usrp-IsIn uid [] u h = cc
find_usrp-IsIn uid (v ∷ us) u h = ground (arith, find_usrp-IsIn uid us u, text_eq_iff v.id uid)

has-usrp_ids : (u : Usrp) (us : List Usrp) → IsIn u us → has u.id (usrp_ids us) ≡ true
unfolding has
has-usrp_ids u [] h = absurd h
has-usrp_ids u (v ∷ us) h = ground (arith, has-usrp_ids u us, text_eq_iff v.id u.id)

-- Where no identifier stands twice, a lookup finds every device.
pub IsIn-find_usrp :
    (u : Usrp) (us : List Usrp) → IsDistinct (usrp_ids us) → IsIn u us → find_usrp u.id us ≡ some u
unfolding find_usrp
IsIn-find_usrp u [] d h = absurd h
IsIn-find_usrp u (v ∷ us) d (inl e) = ground (arith, text_eq_iff v.id u.id)
IsIn-find_usrp u (v ∷ us) d (inr h) =
    ground (arith, IsIn-find_usrp u us d.1 h, has-usrp_ids u us h, text_eq_iff v.id u.id)
