-- ===== src/Json.antt =====
-- Values that `json.loads` returns, as far as the program looks at them, and Python's `int`.
pub mod Printed
use usrp_playground.Prelude.{
  ℕ, zero, ◌+◌, ◌-◌, ◌*◌, Bool, true, false, not, ◌&&◌, ◌||◌, [], ◌∷◌, Option, none, some, leb,
  ◌==◌, if◌then◌else◌,
}
use usrp_playground.Prelude.Text.{Text, is_nil, strip}
use usrp_playground.Prelude.Int.{ℤ, pos, neg}

-- A float by what `int` makes of it; `is_zero` tells 0.0 from 0.5.
pub data Float : Type 0 where
  finite : (truncated : ℤ) → (is_zero : Bool) → Float
  infinite nan : Float

-- Of a list or an object only whether it is empty.
pub data Json : Type 0 where
  null : Json
  bool : Bool → Json
  int : ℤ → Json
  float : Float → Json
  text : Text → Json
  array object : (is_empty : Bool) → Json

abbrev pub is_zero : ℤ → Bool
is_zero (pos zero) = true
is_zero _ = false

-- `bool(v)`.
unfoldable pub is_truthy : Json → Bool
is_truthy null = false
is_truthy (bool b) = b
is_truthy (int z) = not (is_zero z)
is_truthy (float (finite z vanishes)) = not vanishes
is_truthy (float x) = true
is_truthy (text t) = not (is_nil t)
is_truthy (array e) = not e
is_truthy (object e) = not e

-- What `int(v)` does: a number, a `TypeError` or `ValueError`, or an `OverflowError`.
pub data Conversion : Type 0 where
  number : ℤ → Conversion
  invalid overflow : Conversion

-- Digits with single underscores between them.
unfoldable pub digits : ℕ → Bool → Text → Option ℕ
digits acc after_digit [] = if after_digit then some acc else none
digits acc after_digit (c ∷ s) =
    let is_digit = leb 48 c && leb c 57 in
    let rest = digits (if is_digit then acc * 10 + (c - 48) else acc) is_digit s in
    if is_digit || (c == 95 && after_digit) then rest else none

signed : Text → Option ℤ
unfolding digits
signed [] = none
signed (c ∷ s) =
    if c == 45
    then elim (digits 0 false s) [ none ↦ none | some n ↦ some (neg n) ]
    else let t = if c == 43 then s else c ∷ s in
      elim (digits 0 false t) [ none ↦ none | some n ↦ some (pos n) ]

-- `int(s)` of ASCII text.
unfoldable pub int_of_text : Text → Conversion
unfolding signed strip
int_of_text s = elim (signed (strip s)) [ none ↦ invalid | some z ↦ number z ]

unfoldable pub to_int : Json → Conversion
unfolding int_of_text
to_int null = invalid
to_int (bool b) = number (pos (if b then 1 else 0))
to_int (int z) = number z
to_int (float (finite z vanishes)) = number z
to_int (float infinite) = overflow
to_int (float nan) = invalid
to_int (text t) = int_of_text t
to_int (array e) = invalid
to_int (object e) = invalid

-- `int(d.get(key, default) or default)`, for what `d` has under `key`.
unfoldable pub int_or : ℕ → Option Json → Conversion
unfolding is_truthy to_int
int_or default none = number (pos default)
int_or default (some v) = if is_truthy v then to_int v else number (pos default)
