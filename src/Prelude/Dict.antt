-- ===== src/Prelude/Dict.antt =====
-- Python's `dict` with text keys: an association list in insertion order, in which a key that is
-- assigned again keeps its place.
use mathlib.Core.Path.{◌≡◌, refl}
use mathlib.Core.Logic.{◌≢◌}
use mathlib.Core.List.{List, [], ◌∷◌}
use mathlib.Core.Option.{Option, none, some}
use native.Mathlib.Omega.{arith}
use usrp_playground.Prelude.Tests.{if◌then◌else◌}
use usrp_playground.Prelude.Text.{Text, text_eq, text_eq_iff}

abbrev pub Dict {ℓ} : Type ℓ → Type ℓ
Dict V = List (Text × V)

module _ {ℓ} {V : Type ℓ} where
  -- `d.get(k)`.
  unfoldable pub lookup : Text → Dict V → Option V
  lookup k [] = none
  lookup k ((j, v) ∷ d) = if text_eq j k then some v else lookup k d

  -- `d[k] = v`.
  unfoldable pub insert : Text → V → Dict V → Dict V
  insert k v [] = (k, v) ∷ []
  insert k v ((j, w) ∷ d) = if text_eq j k then (j, v) ∷ d else (j, w) ∷ insert k v d

  -- `d.pop(k, None)`, on a dict whose keys are distinct.
  unfoldable pub remove : Text → Dict V → Dict V
  remove k [] = []
  remove k ((j, w) ∷ d) = if text_eq j k then d else (j, w) ∷ remove k d

  pub lookup-insert :
      (j k : Text) (v : V) (d : Dict V)
      → lookup j (insert k v d) ≡ (if text_eq k j then some v else lookup j d)
  unfolding lookup insert
  lookup-insert j k v [] = refl
  lookup-insert j k v ((i, w) ∷ d) =
      ground (arith, text_eq_iff k j, text_eq_iff i k, text_eq_iff i j, lookup-insert j k v d)

  -- No key stands twice.
  abbrev pub IsFresh : Text → Dict V → Type ℓ
  IsFresh k d = lookup k d ≡ none

  abbrev pub IsDict : Dict V → Type ℓ
  IsDict [] = Unit
  IsDict ((k, v) ∷ d) = IsFresh k d × IsDict d

  insert-IsFresh :
      (j k : Text) (v : V) (d : Dict V) → j ≢ k → IsFresh j d → IsFresh j (insert k v d)
  insert-IsFresh j k v d ne h = ground (arith, lookup-insert j k v d, text_eq_iff k j)

  pub insert-IsDict : (k : Text) (v : V) (d : Dict V) → IsDict d → IsDict (insert k v d)
  unfolding insert
  insert-IsDict k v [] h = (unfold lookup in refl, tt)
  insert-IsDict k v ((j, w) ∷ d) h =
      ground (arith, text_eq_iff j k, insert-IsDict k v d h.1, insert-IsFresh j k v d)

  remove-IsFresh : (j k : Text) (d : Dict V) → IsFresh j d → IsFresh j (remove k d)
  unfolding lookup remove
  remove-IsFresh j k [] h = refl
  remove-IsFresh j k ((i, w) ∷ d) h = ground (arith, remove-IsFresh j k d)

  pub remove-IsDict : (k : Text) (d : Dict V) → IsDict d → IsDict (remove k d)
  unfolding remove
  remove-IsDict k [] h = tt
  remove-IsDict k ((j, w) ∷ d) h = ground (arith, remove-IsDict k d h.1, remove-IsFresh j k d)

  pub lookup-remove :
      (j k : Text) (d : Dict V)
      → IsDict d
      → lookup j (remove k d) ≡ (if text_eq k j then none else lookup j d)
  unfolding lookup remove
  lookup-remove j k [] h = ground arith
  lookup-remove j k ((i, w) ∷ d) h =
      ground (arith, text_eq_iff k j, text_eq_iff i k, text_eq_iff i j, lookup-remove j k d h.1)
