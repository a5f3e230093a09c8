-- ===== src/Prelude/Decimal.antt =====
-- The digits of a number, as Python prints it.
use Prim.Native.Nat.{ℕ, zero, suc, ◌+◌, ◌/◌, ◌%◌, ◌≤◌}
use mathlib.Core.Path.{◌≡◌, refl}
use mathlib.Core.Bool.{false}
use mathlib.Core.List.{[], ◌∷◌, ◌++◌}
use native.Mathlib.Omega.{arith}
use usrp_playground.Prelude.Tests.{ltb, if◌then◌else◌}
use usrp_playground.Prelude.Lists.{All}
use usrp_playground.Prelude.Text.{Text, is_space, strip, lstrip, rstrip, strip_end}

-- The first argument is at least as large as the number.
unfoldable pub decimal : ℕ → ℕ → Text
decimal zero n = (48 + n % 10) ∷ []
decimal (suc fuel) n =
    let rest = decimal fuel (n / 10) in
    if ltb n 10 then (48 + n) ∷ [] else rest ++ ((48 + n % 10) ∷ [])

abbrev pub IsDigit : ℕ → Type 0
IsDigit c = (48 ≤ c) × (c ≤ 57)

append-IsDigit : (s : Text) (c : ℕ) → All IsDigit s → IsDigit c → All IsDigit (s ++ (c ∷ []))
append-IsDigit [] c h d = (d, tt)
append-IsDigit (e ∷ s) c h d = (h.0, append-IsDigit s c h.1 d)

pub decimal-IsDigit : (fuel n : ℕ) → All IsDigit (decimal fuel n)
unfolding decimal
decimal-IsDigit zero n = ((omega arith, omega arith), tt)
decimal-IsDigit (suc fuel) n =
    ground
      (arith, decimal-IsDigit fuel (n / 10), append-IsDigit (decimal fuel (n / 10)) (48 + n % 10))

digit_is_visible : (c : ℕ) → IsDigit c → is_space c ≡ false
unfolding is_space
digit_is_visible c h = ground (arith, h)

rstrip-digits : (s : Text) → All IsDigit s → rstrip s ≡ s
unfolding rstrip strip_end
rstrip-digits [] h = refl
rstrip-digits (c ∷ []) h = ground (arith, digit_is_visible c h.0)
rstrip-digits (c ∷ d ∷ s) h = ground (arith, rstrip-digits (d ∷ s) h.1)

pub strip-digits : (s : Text) → All IsDigit s → strip s ≡ s
unfolding strip lstrip
strip-digits [] h = rstrip-digits [] h
strip-digits (c ∷ s) h = ground (arith, digit_is_visible c h.0, rstrip-digits (c ∷ s) h)
