-- ===== src/Prelude/Numbers.antt =====
-- Lists of numbers: membership, and lists in which none stands twice. Dicts with numbers as keys.
use Prim.Native.Nat.{ℕ}
use mathlib.Core.Path.{◌≡◌, refl}
use mathlib.Core.Bool.{Bool, false, ◌||◌}
use mathlib.Core.List.{List, [], ◌∷◌}
use mathlib.Core.Option.{Option, none, some}
use native.Mathlib.Omega.{arith}
use usrp_playground.Prelude.Tests.{◌==◌, if◌then◌else◌}

-- `k in ns`.
unfoldable pub is_member : ℕ → List ℕ → Bool
is_member k [] = false
is_member k (n ∷ ns) = n == k || is_member k ns

abbrev pub AllDifferent : List ℕ → Type 0
AllDifferent [] = Unit
AllDifferent (n ∷ ns) = (is_member n ns ≡ false) × AllDifferent ns

-- Nothing of the first list stands in the second.
abbrev pub IsDisjoint : List ℕ → List ℕ → Type 0
IsDisjoint [] ns = Unit
IsDisjoint (m ∷ ms) ns = (is_member m ns ≡ false) × IsDisjoint ms ns

-- A dict with numbers as keys: `d.get(k)` and `d[k] = v`.
unfoldable pub value_at {ℓ} : {V : Type ℓ} → ℕ → List (ℕ × V) → Option V
value_at k [] = none
value_at k ((j, v) ∷ d) = if j == k then some v else value_at k d

unfoldable pub set_at {ℓ} : {V : Type ℓ} → ℕ → V → List (ℕ × V) → List (ℕ × V)
set_at k v [] = (k, v) ∷ []
set_at k v ((j, w) ∷ d) = if j == k then (j, v) ∷ d else (j, w) ∷ set_at k v d

pub value_at-set_at {ℓ} :
    {V : Type ℓ} (j k : ℕ) (v : V) (d : List (ℕ × V))
    → value_at j (set_at k v d) ≡ (if k == j then some v else value_at j d)
unfolding value_at set_at
value_at-set_at j k v [] = refl
value_at-set_at j k v ((i, w) ∷ d) = ground (arith, value_at-set_at j k v d)

-- To assign what is there changes nothing.
pub set_at-same {ℓ} :
    {V : Type ℓ} (k : ℕ) (v : V) (d : List (ℕ × V)) → value_at k d ≡ some v → set_at k v d ≡ d
unfolding value_at set_at
set_at-same k v [] h = cc
set_at-same k v ((j, w) ∷ d) h = ground (arith, h, set_at-same k v d)
