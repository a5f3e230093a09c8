-- ===== src/Daemon/Store/Rows.antt =====
-- What the rows of `tx_signal` hold after an assignment, channel by channel.
use usrp_playground.Prelude.{
  ℕ, zero, suc, ◌-◌, ◌≡◌, ◌<◌, refl, ap, false, List, [], ◌∷◌, ◌++◌, Option, none, some, length,
  drop, get_elem?, drop-append_self, ◌==◌, if◌then◌else◌, arith, ok,
}
use usrp_playground.Prelude.Numbers.{is_member, AllDifferent}
use usrp_playground.Daemon.Signal.{Samples, Signal, flat, rows}
use usrp_playground.Daemon.Store.{zeros, zero_rows, set_row, place_flat, place_rows, place}

module _ (sp : Samples) where
  -- A row after the assignment to its first samples.
  abbrev pub over : List sp.Sample → Option (List sp.Sample) → Option (List sp.Sample)
  over xs none = none
  over xs (some r) = some (xs ++ drop (length xs) r)

  -- The row of the i-th channel is the i-th row.
  unfoldable pub row_at : List (List sp.Sample) → List ℕ → ℕ → Option (List sp.Sample)
  row_at (r ∷ rs) (c ∷ cs) k = if c == k then some r else row_at rs cs k
  row_at _ _ k = none

  -- What a signal holds for a channel of its list.
  unfoldable pub row_of : Option (Signal sp) → List ℕ → ℕ → Option (List sp.Sample)
  unfolding row_at
  row_of none cs k = none
  row_of (some (flat xs)) cs k = if is_member k cs then some xs else none
  row_of (some (rows cols rs)) cs k = row_at rs cs k

  abbrev pub over_row : Option (List sp.Sample) → Option (List sp.Sample) → Option (List sp.Sample)
  over_row none o = o
  over_row (some xs) o = over xs o

  over_twice : (xs : List sp.Sample) (o : Option (List sp.Sample)) → over xs (over xs o) ≡ over xs o
  over_twice xs none = refl
  over_twice xs (some r) = ap (λ t. some (xs ++ t)) (drop-append_self xs _)

  get_elem?-set_row :
      (c k : ℕ) (xs : List sp.Sample) (tx : List (List sp.Sample))
      → get_elem? (set_row sp c xs tx) k
        ≡ (if c == k then over xs (get_elem? tx k) else get_elem? tx k)
  unfolding set_row
  get_elem?-set_row c k xs [] = ground arith
  get_elem?-set_row zero zero xs (r ∷ tx) = refl
  get_elem?-set_row zero (suc k) xs (r ∷ tx) = ground arith
  get_elem?-set_row (suc c) zero xs (r ∷ tx) = ground arith
  get_elem?-set_row (suc c) (suc k) xs (r ∷ tx) = ground (arith, get_elem?-set_row c k xs tx)

  get_elem?-place_flat :
      (xs : List sp.Sample) (cs : List ℕ) (tx : List (List sp.Sample)) (k : ℕ)
      → get_elem? (place_flat sp xs cs tx) k
        ≡ (if is_member k cs then over xs (get_elem? tx k) else get_elem? tx k)
  unfolding place_flat is_member
  get_elem?-place_flat xs [] tx k = refl
  get_elem?-place_flat xs (c ∷ cs) tx k = ground (
    arith,
    get_elem?-place_flat xs cs (set_row sp c xs tx) k,
    get_elem?-set_row c k xs tx,
    over_twice xs (get_elem? tx k),
  )

  row_at-none :
      (rs : List (List sp.Sample)) (cs : List ℕ) (k : ℕ)
      → is_member k cs ≡ false
      → row_at rs cs k ≡ none
  unfolding row_at is_member
  row_at-none [] cs k h = refl
  row_at-none (r ∷ rs) [] k h = refl
  row_at-none (r ∷ rs) (c ∷ cs) k h = ground (arith, h, row_at-none rs cs k)

  get_elem?-place_rows :
      (rs : List (List sp.Sample)) (cs : List ℕ) (tx : List (List sp.Sample)) (k : ℕ)
      → AllDifferent cs
      → get_elem? (place_rows sp rs cs tx) k ≡ over_row (row_at rs cs k) (get_elem? tx k)
  unfolding place_rows row_at
  get_elem?-place_rows [] cs tx k d = refl
  get_elem?-place_rows (r ∷ rs) [] tx k d = refl
  get_elem?-place_rows (r ∷ rs) (c ∷ cs) tx k d = ground (
    arith,
    d.0,
    get_elem?-place_rows rs cs (set_row sp c r tx) k d.1,
    get_elem?-set_row c k r tx,
    row_at-none rs cs k,
  )

  pub get_elem?-place :
      (s : Option (Signal sp)) (cs : List ℕ) (tx : List (List sp.Sample)) (k : ℕ)
      → AllDifferent cs
      → (place sp s cs tx).1 ≡ ok tt
      → get_elem? (place sp s cs tx).0 k ≡ over_row (row_of s cs k) (get_elem? tx k)
  unfolding place row_of
  get_elem?-place none cs tx k d h = refl
  get_elem?-place (some (flat xs)) [] tx k d h = unfold is_member in refl
  get_elem?-place (some (rows cols rs)) [] tx k d h =
      unfold is_member in rw (row_at-none rs [] k refl)
  get_elem?-place (some (flat xs)) (c ∷ cs) tx k d h =
      ground (arith, get_elem?-place_flat xs (c ∷ cs) tx k)
  get_elem?-place (some (rows cols rs)) (c ∷ cs) tx k d h =
      ground (arith, h, get_elem?-place_rows rs (c ∷ cs) tx k d)

  pub get_elem?-zero_rows : (m n k : ℕ) → k < m → get_elem? (zero_rows sp m n) k ≡ some (zeros sp n)
  unfolding zero_rows
  get_elem?-zero_rows zero n k h = absurd (omega arith)
  get_elem?-zero_rows (suc m) n zero h = refl
  get_elem?-zero_rows (suc m) n (suc k) h = get_elem?-zero_rows m n k (omega arith)

  pub drop-zeros : (j n : ℕ) → drop j (zeros sp n) ≡ zeros sp (n - j)
  unfolding zeros
  drop-zeros zero n = ground arith
  drop-zeros (suc j) zero = ground arith
  drop-zeros (suc j) (suc n) = ground (arith, drop-zeros j n)

  pub row_of-none :
      (s : Option (Signal sp)) (cs : List ℕ) (k : ℕ) → is_member k cs ≡ false → row_of s cs k ≡ none
  unfolding row_of
  row_of-none none cs k h = refl
  row_of-none (some (flat xs)) cs k h = rw h
  row_of-none (some (rows cols rs)) cs k h = row_at-none rs cs k h
