-- ===== src/Endpoints/Agree.antt =====
-- Which ports the daemons get, and which devices have a daemon.
use usrp_playground.Prelude.{
  ℕ, ◌+◌, ◌≡◌, ◌≢◌, ◌<◌, refl, subst, ◌⊎◌, inl, inr, false, List, [], ◌∷◌, map, some, arith, All,
  suc, ap, get_elem?,
}
use usrp_playground.Prelude.Text.{Text, has, text_eq_iff}
use usrp_playground.Prelude.Dict.{Dict, lookup, insert, lookup-insert}
use usrp_playground.Prelude.Distinct.{IsDistinct}
use usrp_playground.Inventory.{Python, RawUsrp, Usrp, str, text_field}
use usrp_playground.Inventory.Saved.{saved_usrp}
use usrp_playground.Inventory.Valid.{IsUsrp, IsIn, usrp_ids}
use usrp_playground.Endpoints.{
  Ports, ports_for_index, Endpoint, endpoint, add_endpoint, endpoints_from,
  endpoints_from_inventory,
}

-- The four ports of one daemon rise.
abbrev pub IsBlock : Ports → Type 0
IsBlock p = (p.tx_rep < p.tx_pub) × (p.tx_pub < p.rx_rep) × (p.rx_rep < p.rx_pub)

-- All ports of one daemon are below all ports of another.
abbrev pub IsBelow : Ports → Ports → Type 0
IsBelow p q = p.rx_pub < q.tx_rep

abbrev IsPlaced : ℕ → Endpoint → Type 0
IsPlaced i e = (e.index < i) × (e.ports ≡ ports_for_index e.index)

abbrev AllPlaced : ℕ → Dict Endpoint → Type 0
AllPlaced i out = (u : Text) (e : Endpoint) → lookup u out ≡ some e → IsPlaced i e

abbrev OnePerIndex : Dict Endpoint → Type 0
OnePerIndex out =
    (u v : Text) (e f : Endpoint)
    → lookup u out ≡ some e
    → lookup v out ≡ some f
    → e.index ≡ f.index
    → u ≡ v

empty-placed : AllPlaced 0 [] × OnePerIndex []
unfolding lookup
empty-placed = (λ u e h. cc, λ u v e f h k s. cc)

module _ (py : Python) where
  add_endpoint-AllPlaced :
      (i : ℕ) (raw : RawUsrp) (out : Dict Endpoint)
      → AllPlaced i out
      → AllPlaced (i + 1) (add_endpoint py i raw out)
  unfolding add_endpoint endpoint
  add_endpoint-AllPlaced i raw out placed u e h =
      ground (arith, placed u e, lookup-insert u (text_field py [] raw.id) (endpoint py i raw) out)

  add_endpoint-OnePerIndex :
      (i : ℕ) (raw : RawUsrp) (out : Dict Endpoint)
      → AllPlaced i out
      → OnePerIndex out
      → OnePerIndex (add_endpoint py i raw out)
  unfolding add_endpoint endpoint
  add_endpoint-OnePerIndex i raw out placed one u v e f h k same =
      let uid = text_field py [] raw.id in
      ground (
        arith,
        placed u e,
        placed v f,
        one u v e f,
        lookup-insert u uid (endpoint py i raw) out,
        lookup-insert v uid (endpoint py i raw) out,
        text_eq_iff uid u,
        text_eq_iff uid v,
      )

  endpoints_from-placed :
      (i : ℕ) (out : Dict Endpoint) (us : List RawUsrp)
      → AllPlaced i out
      → OnePerIndex out
      → (n : ℕ) × AllPlaced n (endpoints_from py i out us)
        × OnePerIndex (endpoints_from py i out us)
  unfolding endpoints_from
  endpoints_from-placed i out [] placed one = (i, placed, one)
  endpoints_from-placed i out (u ∷ us) placed one =
      endpoints_from-placed (i + 1) (add_endpoint py i u out) us
        (add_endpoint-AllPlaced i u out placed) (add_endpoint-OnePerIndex i u out placed one)

  -- The four ports of a daemon are different, and different devices' ports do not overlap, whatever
  -- the inventory holds: all ports of one of two devices are below all ports of the other.
  pub endpoints_from_inventory-disjoint :
      (us : List RawUsrp) (u v : Text) (e f : Endpoint)
      → lookup u (endpoints_from_inventory py us) ≡ some e
      → lookup v (endpoints_from_inventory py us) ≡ some f
      → u ≢ v
      → IsBlock e.ports × IsBlock f.ports × (IsBelow e.ports f.ports ⊎ IsBelow f.ports e.ports)
  unfolding endpoints_from_inventory ports_for_index
  endpoints_from_inventory-disjoint us u v e f h k apart =
      let (n, placed, one) = endpoints_from-placed 0 [] us empty-placed.0 empty-placed.1 in
      ground (arith, placed u e h, placed v f k, one u v e f h k)

  add_endpoint-saved :
      (i : ℕ) (u : Usrp) (out : Dict Endpoint)
      → IsUsrp u
      → add_endpoint py i (saved_usrp u) out ≡ insert u.id (endpoint py i (saved_usrp u)) out
  unfolding add_endpoint text_field str
  add_endpoint-saved i u out valid = rw (valid.named.1, valid.named.0)

  endpoints_from-skips :
      (i : ℕ) (uid : Text) (out : Dict Endpoint) (us : List Usrp)
      → has uid (usrp_ids us) ≡ false
      → All IsUsrp us
      → lookup uid (endpoints_from py i out (map saved_usrp us)) ≡ lookup uid out
  unfolding endpoints_from has
  endpoints_from-skips i uid out [] new valid = refl
  endpoints_from-skips i uid out (u ∷ us) new valid =
      let added = insert u.id (endpoint py i (saved_usrp u)) out in
      ground (
        arith,
        add_endpoint-saved i u out valid.0,
        endpoints_from-skips (i + 1) uid added us,
        valid.1,
        lookup-insert uid u.id (endpoint py i (saved_usrp u)) out,
      )

  pub endpoints_from-finds :
      (i : ℕ) (out : Dict Endpoint) (us : List Usrp) (u : Usrp)
      → All IsUsrp us
      → IsDistinct (usrp_ids us)
      → IsIn u us
      → (k : ℕ) × (n : ℕ) × (get_elem? us n ≡ some u)
        × (k ≡ i + n)
        × (lookup u.id (endpoints_from py i out (map saved_usrp us))
            ≡ some (endpoint py k (saved_usrp u)))
  unfolding endpoints_from
  endpoints_from-finds i out [] u valid distinct here = absurd here
  endpoints_from-finds i out (v ∷ us) u valid distinct (inl same) =
      let added = insert v.id (endpoint py i (saved_usrp v)) out in
      (
        i,
        0,
        ap some same,
        omega arith,
        subst
            (λ w.
              lookup w.id (
                endpoints_from py (i + 1) (add_endpoint py i (saved_usrp v) out)
                  (map saved_usrp us))
              ≡ some (endpoint py i (saved_usrp w)))
            same
            (rw (add_endpoint-saved i v out valid.0) (
              rw (endpoints_from-skips (i + 1) v.id added us distinct.0 valid.1) (
                ground (
                  arith,
                  text_eq_iff v.id v.id,
                  lookup-insert v.id v.id (endpoint py i (saved_usrp v)) out,
                )))),
      )
  endpoints_from-finds i out (v ∷ us) u valid distinct (inr here) =
      let (k, n, at, sum, found) =
        endpoints_from-finds (i + 1) (add_endpoint py i (saved_usrp v) out) us u valid.1 distinct.1
          here in
      (k, suc n, at, omega (arith, sum), found)
