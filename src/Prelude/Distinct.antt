-- ===== src/Prelude/Distinct.antt =====
-- Lists of texts in which no text stands twice, and the sets `seen` by which loops find that out.
use mathlib.Core.Path.{◌≡◌, refl}
use mathlib.Core.Logic.{◌↔◌}
use mathlib.Core.Bool.{false}
use mathlib.Core.List.{List, [], ◌∷◌}
use native.Mathlib.Omega.{arith}
use usrp_playground.Prelude.Text.{Text, has, text_eq_iff}

abbrev pub IsDistinct : List Text → Type 0
IsDistinct [] = Unit
IsDistinct (s ∷ ss) = (has s ss ≡ false) × IsDistinct ss

-- Nothing of the list has been seen.
abbrev pub IsUnseen : List Text → List Text → Type 0
IsUnseen seen [] = Unit
IsUnseen seen (s ∷ ss) = (has s seen ≡ false) × IsUnseen seen ss

-- What has not been seen after `s`, has not been seen before, and is not `s`.
pub IsUnseen-cons :
    (s : Text) (seen ss : List Text)
    → IsUnseen (s ∷ seen) ss ↔ ((has s ss ≡ false) × IsUnseen seen ss)
unfolding has
IsUnseen-cons s seen [] = ground arith
IsUnseen-cons s seen (t ∷ ss) =
    ground (arith, IsUnseen-cons s seen ss, text_eq_iff s t, text_eq_iff t s)

pub IsUnseen-nil : (ss : List Text) → IsUnseen [] ss
unfolding has
IsUnseen-nil [] = tt
IsUnseen-nil (s ∷ ss) = (refl, IsUnseen-nil ss)
