-- ===== src/Channel/Routing/Defaults.antt =====
-- Channels that leave the device channel free.
use usrp_playground.Prelude.{
  ℕ, ◌+◌, ◌≤◌, ◌≡◌, ◌≢◌, refl, subst, sym, List, [], ◌∷◌, Option, none, some, arith, All, ok, ◌>>=◌,
  >>=-eq-ok,
}
use usrp_playground.Prelude.Int.{ℤ, pos}
use usrp_playground.Prelude.Text.{Text, text_eq_iff}
use usrp_playground.Prelude.Dict.{Dict, lookup-insert}
use usrp_playground.Json.{Json}
use usrp_playground.Inventory.{Python, RawChannel, Direction, tx, rx, text_field}
use usrp_playground.Channel.Routing.{Route, next_index, count_up, device_index, route, resolve}

abbrev pub usrp_of : Direction → Route → Text
usrp_of tx r = r.tx_usrp
usrp_of rx r = r.rx_usrp

abbrev pub chan_of : Direction → Route → ℤ
chan_of tx r = r.tx_chan
chan_of rx r = r.rx_chan

abbrev pub raw_chan : Direction → RawChannel → Option Json
raw_chan tx c = c.tx.chan
raw_chan rx c = c.rx.chan

-- Nothing that `_chan` would take for a number.
abbrev pub IsOpen : Option Json → Type 0
IsOpen none = Unit
IsOpen (some Json.null) = Unit
IsOpen (some (Json.text [])) = Unit
IsOpen (some _) = ⊥

abbrev pub AllOpen : Direction → List RawChannel → Type 0
AllOpen side [] = Unit
AllOpen side (c ∷ cs) = IsOpen (raw_chan side c) × AllOpen side cs

-- Two routes over the same device use different channels of it.
abbrev pub AllApart : Direction → List Route → Type 0
AllApart side [] = Unit
AllApart side (r ∷ rs) =
    All (λ q. usrp_of side q ≡ usrp_of side r → chan_of side q ≢ chan_of side r) rs
    × AllApart side rs

abbrev IsAbove : Direction → Dict ℕ → Route → Type 0
IsAbove side counter r =
    (k : ℕ) × (chan_of side r ≡ pos k) × (next_index (usrp_of side r) counter ≤ k)

device_index-open : (idx : ℕ) (v : Option Json) → IsOpen v → device_index idx v ≡ ok (pos idx)
unfolding device_index
device_index-open idx none h = refl
device_index-open idx (some Json.null) h = refl
device_index-open idx (some (Json.text [])) h = refl
device_index-open idx (some (Json.text (c ∷ s))) h = absurd h
device_index-open idx (some (Json.bool b)) h = absurd h
device_index-open idx (some (Json.int z)) h = absurd h
device_index-open idx (some (Json.float x)) h = absurd h
device_index-open idx (some (Json.array e)) h = absurd h
device_index-open idx (some (Json.object e)) h = absurd h

next_index-count_up :
    (u v : Text) (counter : Dict ℕ)
    → (next_index v counter ≤ next_index v (count_up u counter))
      × (u ≡ v → next_index v (count_up u counter) ≡ next_index v counter + 1)
unfolding next_index
next_index-count_up u v counter =
    ground (arith, lookup-insert v u (next_index u counter + 1) counter, text_eq_iff u v)

abbrev counter_of : Direction → Dict ℕ → Dict ℕ → Dict ℕ
counter_of tx s t = s
counter_of rx s t = t

lower-IsAbove :
    (side : Direction) (u : Text) (counter : Dict ℕ) (rs : List Route)
    → All (IsAbove side (count_up u counter)) rs
    → All (IsAbove side counter) rs
lower-IsAbove side u counter [] above = tt
lower-IsAbove side u counter (r ∷ rs) above =
    let (k, e, h) = above.0 in
    (
      (k, e, ground (arith, h, next_index-count_up u (usrp_of side r) counter)),
      lower-IsAbove side u counter rs above.1,
    )

above_apart :
    (side : Direction) (r : Route) (counter : Dict ℕ) (rs : List Route)
    → chan_of side r ≡ pos (next_index (usrp_of side r) counter)
    → All (IsAbove side (count_up (usrp_of side r) counter)) rs
    → All (λ q. usrp_of side q ≡ usrp_of side r → chan_of side q ≢ chan_of side r) rs
above_apart side r counter [] e above = tt
above_apart side r counter (q ∷ rs) e above =
    let (k, d, h) = above.0 in
    (
      λ same clash. ground (
        arith,
        e,
        d,
        h,
        same,
        clash,
        next_index-count_up (usrp_of side r) (usrp_of side q) counter,
      ),
      above_apart side r counter rs e above.1,
    )

cons_apart :
    (side : Direction) (u : Text) (counter : Dict ℕ) (r : Route) (rs : List Route)
    → usrp_of side r ≡ u
    → chan_of side r ≡ pos (next_index u counter)
    → AllApart side rs × All (IsAbove side (count_up u counter)) rs
    → AllApart side (r ∷ rs) × All (IsAbove side counter) (r ∷ rs)
cons_apart side u counter r rs same e (apart, above) =
    let numbered : chan_of side r ≡ pos (next_index (usrp_of side r) counter) =
      subst (λ v. chan_of side r ≡ pos (next_index v counter)) (sym same) e in
    (
      (
        above_apart side r counter rs numbered
            (subst (λ v. All (IsAbove side (count_up v counter)) rs) (sym same) above),
        apart,
      ),
      (
        (next_index (usrp_of side r) counter, numbered, omega arith),
        lower-IsAbove side u counter rs above,
      ),
    )

count_apart :
    (side : Direction) (u v : Text) (s t : Dict ℕ) (r : Route) (rs : List Route)
    → usrp_of side r ≡ (elim side [ tx ↦ u | rx ↦ v ])
    → chan_of side r ≡ pos (elim side [ tx ↦ next_index u s | rx ↦ next_index v t ])
    → AllApart side rs × All (IsAbove side (counter_of side (count_up u s) (count_up v t))) rs
    → AllApart side (r ∷ rs) × All (IsAbove side (counter_of side s t)) (r ∷ rs)
count_apart tx u v s t r rs usrp chan later = cons_apart tx u s r rs usrp chan later
count_apart rx u v s t r rs usrp chan later = cons_apart rx v t r rs usrp chan later

module _ (py : Python) where
  route-open :
      (side : Direction) (i j : ℕ) (c : RawChannel) (r : Route)
      → IsOpen (raw_chan side c)
      → route py i j c ≡ ok r
      → (usrp_of side r
          ≡ (elim side [ tx ↦ text_field py [] c.tx.usrp | rx ↦ text_field py [] c.rx.usrp ]))
        × (chan_of side r ≡ pos (elim side [ tx ↦ i | rx ↦ j ]))
  unfolding route
  route-open tx i j c r free h = ground (arith, device_index-open i c.tx.chan free)
  route-open rx i j c r free h = ground (arith, device_index-open j c.rx.chan free)

  resolve-apart :
      (side : Direction) (s t : Dict ℕ) (cs : List RawChannel) (rs : List Route)
      → AllOpen side cs
      → resolve py s t cs ≡ ok rs
      → AllApart side rs × All (IsAbove side (counter_of side s t)) rs
  unfolding resolve
  resolve-apart side s t [] rs free h = ground arith
  resolve-apart side s t (c ∷ cs) rs free h =
      let u = text_field py [] c.tx.usrp in
      let v = text_field py [] c.rx.usrp in
      let (r, e, h₁) =
        >>=-eq-ok (route py (next_index u s) (next_index v t) c)
          (λ (r : Route). resolve py (count_up u s) (count_up v t) cs >>= λ rest. ok (r ∷ rest))
          h in
      let (rest, d, same) =
        >>=-eq-ok (resolve py (count_up u s) (count_up v t) cs)
          (λ (rest : List Route). ok (r ∷ rest)) h₁ in
      let (usrp, chan) = route-open side (next_index u s) (next_index v t) c r free.0 e in
      let later = resolve-apart side (count_up u s) (count_up v t) cs rest free.1 d in
      let made : r ∷ rest ≡ rs = ground (arith, same) in
      subst (λ rs. AllApart side rs × All (IsAbove side (counter_of side s t)) rs) made
        (count_apart side u v s t r rest usrp chan later)

  -- Where no channel of the inventory sets its device channel on a side, two channels over the same
  -- device are resolved to different channels of it.
  pub resolve-AllApart :
      (side : Direction) (cs : List RawChannel) (rs : List Route)
      → AllOpen side cs
      → resolve py [] [] cs ≡ ok rs
      → AllApart side rs
  resolve-AllApart side cs rs free h = (resolve-apart side [] [] cs rs free h).0
