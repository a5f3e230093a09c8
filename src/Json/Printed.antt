-- ===== src/Json/Printed.antt =====
-- Python's `int` on what Python prints.
use usrp_playground.Prelude.{
  ℕ, zero, suc, ◌+◌, ◌-◌, ◌*◌, ◌/◌, ◌%◌, ◌≤◌, ◌<◌, ◌≡◌, Bool, true, false, [], ◌∷◌, ◌++◌, some,
  arith, All,
}
use usrp_playground.Prelude.Int.{pos}
use usrp_playground.Prelude.Text.{Text}
use usrp_playground.Prelude.Decimal.{decimal, IsDigit, decimal-IsDigit, strip-digits}
use usrp_playground.Json.{digits, signed, int_of_text, number}

digits-append :
    (s : Text) (acc m d : ℕ) (b : Bool)
    → d < 10
    → digits acc b s ≡ some m
    → digits acc b (s ++ ((48 + d) ∷ [])) ≡ some (m * 10 + d)
unfolding digits
digits-append [] acc m d b small h = ground (arith, small, h)
digits-append (c ∷ s) acc m d b small h = ground (
  arith,
  h,
  digits-append s (acc * 10 + (c - 48)) m d true small,
  digits-append s acc m d false small,
)

digits-decimal : (fuel n : ℕ) → n ≤ fuel → digits 0 false (decimal fuel n) ≡ some n
unfolding digits decimal
digits-decimal zero n h = ground (arith, h)
digits-decimal (suc fuel) n h = ground (
  arith,
  h,
  digits-decimal fuel (n / 10),
  digits-append (decimal fuel (n / 10)) 0 (n / 10) (n % 10) false,
)

signed-digits :
    (s : Text) (n : ℕ) → All IsDigit s → digits 0 false s ≡ some n → signed s ≡ some (pos n)
unfolding signed digits
signed-digits [] n all h = cc
signed-digits (c ∷ s) n all h = ground (arith, all.0, h)

pub int_of_text-decimal : (n : ℕ) → int_of_text (decimal n n) ≡ number (pos n)
unfolding int_of_text
int_of_text-decimal n = ground (
  arith,
  strip-digits (decimal n n) (decimal-IsDigit n n),
  signed-digits (decimal n n) n (decimal-IsDigit n n) (digits-decimal n n (omega arith)),
)
