-- ===== src/Settings/Stored.antt =====
-- The settings in a file that was written, against those that were in it.
use usrp_playground.Prelude.{
  ◌≡◌, refl, sym, ap, subst, ◌∙◌, Bool, true, false, List, [], ◌∷◌, ◌++◌, Option, none, some,
  if◌then◌else◌, arith, All, Bool-cases, inl, inr,
}
use usrp_playground.Prelude.Text.{
  Text, codes, text_eq, text_eq_iff, strip, rstrip, lstrip, strip_end, is_space,
}
use usrp_playground.Prelude.{if-both}
use usrp_playground.Prelude.Dict.{Dict, lookup, lookup-insert}
use usrp_playground.Settings.{
  parse_line, set_line, parse_env_file, env_line, is_line_of, replace_lines, is_found, missing_end,
  write_env_key, ends_with,
}
use usrp_playground.Settings.Written.{IsKey, IsValue, parse_line-env_line}

-- What a line makes of the value of a key.
abbrev pub line_value : Text → Option (Text × Text) → Option Text → Option Text
line_value j none o = o
line_value j (some (k, v)) o = if text_eq k j then some v else o

-- The value that the lines leave, from the one before them.
unfoldable pub last_value : Text → List Text → Option Text → Option Text
last_value j [] o = o
last_value j (line ∷ lines) o = last_value j lines (line_value j (parse_line line) o)

lookup-set_line :
    (j : Text) (p : Option (Text × Text)) (d : Dict Text)
    → lookup j (set_line p d) ≡ line_value j p (lookup j d)
unfolding set_line
lookup-set_line j none d = refl
lookup-set_line j (some (k, v)) d = lookup-insert j k v d

pub lookup-parse_env_file :
    (j : Text) (lines : List Text) (d : Dict Text)
    → lookup j (parse_env_file lines d) ≡ last_value j lines (lookup j d)
unfolding parse_env_file last_value
lookup-parse_env_file j [] d = refl
lookup-parse_env_file j (line ∷ lines) d =
    lookup-parse_env_file j lines (set_line (parse_line line) d)
    ∙ ap (last_value j lines) (lookup-set_line j (parse_line line) d)

abbrev pub sets : Text → Option (Text × Text) → Bool
sets key none = false
sets key (some (k, v)) = text_eq k key

-- The lines that are taken for lines of the key are those that set it.
abbrev pub IsRegular : Text → List Text → Type 0
IsRegular key lines = All (λ line. is_line_of key line ≡ sets key (parse_line line)) lines

last_value-append :
    (j : Text) (xs ys : List Text) (o : Option Text)
    → last_value j (xs ++ ys) o ≡ last_value j ys (last_value j xs o)
unfolding last_value
last_value-append j [] ys o = refl
last_value-append j (x ∷ xs) ys o = last_value-append j xs ys (line_value j (parse_line x) o)

pub line_value-sets :
    (j key : Text) (p : Option (Text × Text)) (o : Option Text)
    → sets key p ≡ true
    → text_eq key j ≡ false
    → line_value j p o ≡ o
line_value-sets j key none o h ne = refl
line_value-sets j key (some (k, v)) o h ne =
    ground (arith, h, ne, text_eq_iff k key, text_eq_iff k j, text_eq_iff key j)

pub line_value-unset :
    (key : Text) (p : Option (Text × Text)) (o : Option Text)
    → sets key p ≡ false
    → line_value key p o ≡ o
line_value-unset key none o h = refl
line_value-unset key (some (k, v)) o h = rw h

pub parse_line-end : parse_line (codes "\n") ≡ none
unfolding parse_line strip rstrip lstrip strip_end is_space
parse_line-end = refl

line_value-end :
    (j line : Text) (o : Option Text)
    → last_value j (if ends_with b'\n' line then [] else codes "\n" ∷ []) o ≡ o
unfolding last_value
line_value-end j line o = elim (Bool-cases (ends_with b'\n' line)) [
  | inl ended ↦ rw ended refl
  | inr unended ↦ rw unended (ap (λ p. line_value j p o) parse_line-end)
]

module _ (key value : Text) (is_key : IsKey key) (is_value : IsValue value) where
  line_value-env_line :
      (j : Text) (o : Option Text)
      → line_value j (parse_line (env_line key value)) o ≡ (if text_eq key j then some value else o)
  line_value-env_line j o =
      ap (λ p. line_value j p o) (parse_line-env_line key value is_key is_value)

  line_value-kept :
      (j : Text) (p : Option (Text × Text)) (o : Option Text)
      → text_eq key j ≡ false
      → sets key p ≡ true
      → line_value j (parse_line (env_line key value)) o ≡ line_value j p o
  line_value-kept j p o ne h =
      line_value-env_line j o ∙ rw ne refl ∙ sym (line_value-sets j key p o h ne)

  line_value-own :
      (o : Option Text) → line_value key (parse_line (env_line key value)) o ≡ some value
  line_value-own o = line_value-env_line key o ∙ rw ((text_eq_iff key key).1 refl) refl

  -- Other keys are left alone.
  last_value-other :
      (j : Text) (lines : List Text) (o : Option Text)
      → text_eq key j ≡ false
      → IsRegular key lines
      → last_value j (replace_lines key value lines) o ≡ last_value j lines o
  unfolding last_value replace_lines
  last_value-other j [] o ne r = refl
  last_value-other j (line ∷ lines) o ne r = elim (Bool-cases (is_line_of key line)) [
    | inl here ↦ rw here (
        ap (last_value j (replace_lines key value lines))
          (line_value-kept j (parse_line line) o ne (sym r.0 ∙ here))
        ∙ last_value-other j lines (line_value j (parse_line line) o) ne r.1)
    | inr there ↦ rw there (last_value-other j lines (line_value j (parse_line line) o) ne r.1)
  ]

  -- The key has the new value if a line of it was found.
  last_value-key :
      (lines : List Text) (o : Option Text)
      → IsRegular key lines
      → last_value key (replace_lines key value lines) o
        ≡ (if is_found key lines then some value else o)
  unfolding last_value replace_lines is_found
  last_value-key [] o r = refl
  last_value-key (line ∷ lines) o r = elim (Bool-cases (is_line_of key line)) [
    | inl here ↦ rw here (
        ap (last_value key (replace_lines key value lines)) (line_value-own o)
        ∙ last_value-key lines (some value) r.1
        ∙ sym (if-both (λ t. some value ≡ t) (is_found key lines) refl refl))
    | inr there ↦ rw there (
        ap (last_value key (replace_lines key value lines))
          (line_value-unset key (parse_line line) o (sym r.0 ∙ there))
        ∙ last_value-key lines o r.1)
  ]

  last_value-missing_end :
      (j : Text) (lines : List Text) (o : Option Text) → last_value j (missing_end lines) o ≡ o
  unfolding last_value missing_end
  last_value-missing_end j [] o = refl
  last_value-missing_end j (line ∷ []) o = line_value-end j line o
  last_value-missing_end j (line ∷ next ∷ lines) o = last_value-missing_end j (next ∷ lines) o

  last_value-added :
      (j : Text) (lines : List Text) (o : Option Text)
      → last_value j (lines ++ (missing_end lines ++ env_line key value ∷ [])) o
        ≡ (if text_eq key j then some value else last_value j lines o)
  unfolding last_value
  last_value-added j lines o =
      last_value-append j lines (missing_end lines ++ env_line key value ∷ []) o
      ∙ last_value-append j (missing_end lines) (env_line key value ∷ []) (last_value j lines o)
      ∙ line_value-env_line j (last_value j (missing_end lines) (last_value j lines o))
      ∙ ap (λ t. if text_eq key j then some value else t)
          (last_value-missing_end j lines (last_value j lines o))

  last_value-found :
      (j : Text) (lines : List Text) (o : Option Text)
      → is_found key lines ≡ true
      → IsRegular key lines
      → last_value j (replace_lines key value lines) o
        ≡ (if text_eq key j then some value else last_value j lines o)
  last_value-found j lines o found r = elim (Bool-cases (text_eq key j)) [
    | inl same ↦ rw same (
        subst (λ t. last_value t (replace_lines key value lines) o ≡ some value)
          ((text_eq_iff key j).0 same) (last_value-key lines o r ∙ rw found refl))
    | inr other ↦ rw other (last_value-other j lines o other r)
  ]

  last_value-replaced :
      (j : Text) (lines : List Text) (o : Option Text)
      → IsRegular key lines
      → (if text_eq key j then some value else last_value j (replace_lines key value lines) o)
        ≡ (if text_eq key j then some value else last_value j lines o)
  last_value-replaced j lines o r = elim (Bool-cases (text_eq key j)) [
    | inl same ↦ rw same refl
    | inr other ↦ rw other (last_value-other j lines o other r)
  ]

  last_value-write_env_key :
      (j : Text) (lines : List Text) (o : Option Text)
      → IsRegular key lines
      → last_value j (write_env_key key value lines) o
        ≡ (if text_eq key j then some value else last_value j lines o)
  unfolding write_env_key
  last_value-write_env_key j lines o r = elim (Bool-cases (is_found key lines)) [
    | inl found ↦ rw found (last_value-found j lines o found r)
    | inr missing ↦
        rw missing
          (last_value-added j (replace_lines key value lines) o ∙ last_value-replaced j lines o r)
  ]

-- After `_write_env_key` a key that is looked up in the file's settings has the value written, if it
-- is the key written, and else the value that it had: for a key and a value that a line can hold,
-- and a file in which the lines that are taken for lines of the key are those that set it.
pub lookup-write_env_key :
    (key value : Text) (lines : List Text) (j : Text)
    → IsKey key
    → IsValue value
    → IsRegular key lines
    → lookup j (parse_env_file (write_env_key key value lines) [])
      ≡ (if text_eq key j then some value else lookup j (parse_env_file lines []))
unfolding lookup
lookup-write_env_key key value lines j is_key is_value r =
    lookup-parse_env_file j (write_env_key key value lines) []
    ∙ last_value-write_env_key key value is_key is_value j lines none r
    ∙ ap (λ o. if text_eq key j then some value else o) (sym (lookup-parse_env_file j lines []))
