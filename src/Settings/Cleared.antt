-- ===== src/Settings/Cleared.antt =====
-- The settings in a file from which one was removed.
use usrp_playground.Prelude.{
  ◌≡◌, refl, sym, ap, subst, ◌∙◌, false, List, [], ◌∷◌, Option, none, if◌then◌else◌, Bool-cases,
  inl, inr,
}
use usrp_playground.Prelude.Text.{Text, text_eq, text_eq_iff}
use usrp_playground.Prelude.Dict.{lookup}
use usrp_playground.Settings.{parse_line, parse_env_file, is_line_of, clear_env_key}
use usrp_playground.Settings.Stored.{
  IsRegular, last_value, line_value, line_value-sets, line_value-unset, lookup-parse_env_file,
}

module _ (key : Text) where
  last_value-other :
      (j : Text) (lines : List Text) (o : Option Text)
      → text_eq key j ≡ false
      → IsRegular key lines
      → last_value j (clear_env_key key lines) o ≡ last_value j lines o
  unfolding last_value clear_env_key
  last_value-other j [] o ne r = refl
  last_value-other j (line ∷ lines) o ne r = elim (Bool-cases (is_line_of key line)) [
    | inl here ↦ rw here (
        last_value-other j lines o ne r.1
        ∙ ap (last_value j lines)
            (sym (line_value-sets j key (parse_line line) o (sym r.0 ∙ here) ne)))
    | inr there ↦ rw there (last_value-other j lines (line_value j (parse_line line) o) ne r.1)
  ]

  last_value-own :
      (lines : List Text) (o : Option Text)
      → IsRegular key lines
      → last_value key (clear_env_key key lines) o ≡ o
  unfolding last_value clear_env_key
  last_value-own [] o r = refl
  last_value-own (line ∷ lines) o r = elim (Bool-cases (is_line_of key line)) [
    | inl here ↦ rw here (last_value-own lines o r.1)
    | inr there ↦ rw there (
        ap (last_value key (clear_env_key key lines))
          (line_value-unset key (parse_line line) o (sym r.0 ∙ there))
        ∙ last_value-own lines o r.1)
  ]

-- After `clear_override` the file's settings are those of before without the key.
pub lookup-clear_env_key :
    (key : Text) (lines : List Text) (j : Text)
    → IsRegular key lines
    → lookup j (parse_env_file (clear_env_key key lines) [])
      ≡ (if text_eq key j then none else lookup j (parse_env_file lines []))
unfolding lookup
lookup-clear_env_key key lines j r = elim (Bool-cases (text_eq key j)) [
  | inl same ↦ rw same (
      lookup-parse_env_file j (clear_env_key key lines) []
      ∙ subst (λ t. last_value t (clear_env_key key lines) none ≡ none) ((text_eq_iff key j).0 same)
          (last_value-own key lines none r))
  | inr other ↦ rw other (
      lookup-parse_env_file j (clear_env_key key lines) []
      ∙ last_value-other key j lines none other r
      ∙ sym (lookup-parse_env_file j lines []))
]
