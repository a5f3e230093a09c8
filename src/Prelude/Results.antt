-- ===== src/Prelude/Results.antt =====
-- What a Python call gives: a value, or the exception that it raises.
use mathlib.Core.Path.{◌≡◌, refl}
use mathlib.Core.Logic.{◌⊎◌, inl, inr}
use mathlib.Core.Bool.{Bool, true, false}

pub data Result {ℓ₁ ℓ₂} (Exception : Type ℓ₁) (V : Type ℓ₂) : Type (ℓ₁ ⊔ ℓ₂) where
  err : Exception → Result Exception V
  ok : V → Result Exception V

-- `if test: raise exception`.
abbrev pub raise_if {ℓ} : {Exception : Type ℓ} → Bool → Exception → Result Exception (Unit {0})
raise_if test exception = elim test [ true ↦ err exception | false ↦ ok tt ]

module _ {ℓ₁ ℓ₂ ℓ₃} {Exception : Type ℓ₁} {V : Type ℓ₂} {W : Type ℓ₃} where
  infixl 5 ◌>>=◌
  abbrev pub ◌>>=◌ : Result Exception V → (V → Result Exception W) → Result Exception W
  err exception >>= rest = err exception
  ok v >>= rest = rest v

  -- A block returns only if its first line does.
  pub >>=-eq-ok :
      (first : Result Exception V) (rest : V → Result Exception W) {w : W}
      → (first >>= rest) ≡ ok w
      → (v : V) × (first ≡ ok v) × (rest v ≡ ok w)
  >>=-eq-ok (err exception) rest returned = cc
  >>=-eq-ok (ok v) rest returned = (v, refl, returned)

pub Result-cases {ℓ₁ ℓ₂} :
    {Exception : Type ℓ₁} {V : Type ℓ₂} (r : Result Exception V)
    → ((exception : Exception) × (r ≡ err exception)) ⊎ ((v : V) × (r ≡ ok v))
Result-cases (err exception) = inl (exception, refl)
Result-cases (ok v) = inr (v, refl)

infixl 5 ◌>>◌
abbrev pub ◌>>◌ {ℓ₁ ℓ₂} :
    {Exception : Type ℓ₁} {W : Type ℓ₂}
    → Result Exception (Unit {0})
    → Result Exception W
    → Result Exception W
first >> rest = first >>= λ _. rest

pub raise_if-eq-ok {ℓ} :
    {Exception : Type ℓ} (test : Bool) (exception : Exception) {u : Unit {0}}
    → raise_if test exception ≡ ok u
    → test ≡ false
raise_if-eq-ok false exception returned = refl
raise_if-eq-ok true exception returned = cc

-- A guard that was passed.
pub raise_if-passed {ℓ₁ ℓ₂} :
    {Exception : Type ℓ₁} {W : Type ℓ₂} (test : Bool) (exception : Exception)
    (rest : Result Exception W) {w : W}
    → (raise_if test exception >> rest) ≡ ok w
    → (test ≡ false) × (rest ≡ ok w)
raise_if-passed false exception rest returned = (refl, returned)
raise_if-passed true exception rest returned = cc
