-- ===== src/Settings/Regular.antt =====
-- The lines of a file that was written are taken for lines of the key if they set it.
use usrp_playground.Prelude.{
  ◌≡◌, refl, sym, ap, ◌∙◌, true, false, List, [], ◌∷◌, ◌++◌, arith, All, if-both,
}
use usrp_playground.Prelude.Text.{Text, codes, text_eq_iff, starts_with, lstrip, is_space}
use usrp_playground.Settings.{
  parse_line, env_line, is_line_of, replace_lines, is_found, missing_end, write_env_key, ends_with,
}
use usrp_playground.Settings.Written.{IsKey, IsValue, parse_line-env_line}
use usrp_playground.Settings.Stored.{IsRegular, sets, parse_line-end}

starts_with-eq : (key rest : Text) → starts_with (key ++ codes "=") (key ++ b'=' ∷ rest) ≡ true
unfolding starts_with
starts_with-eq [] rest = refl
starts_with-eq (c ∷ key) rest = ground (arith, starts_with-eq key rest)

All-append : {A : Type 0} (P : A → Type 0) (xs ys : List A) → All P xs → All P ys → All P (xs ++ ys)
All-append P [] ys xs_all ys_all = ys_all
All-append P (x ∷ xs) ys xs_all ys_all = (xs_all.0, All-append P xs ys xs_all.1 ys_all)

is_line_of-env_line : (key value : Text) → IsKey key → is_line_of key (env_line key value) ≡ true
unfolding is_line_of lstrip
is_line_of-env_line [] value k = absurd (ground (arith, k.starts))
is_line_of-env_line (c ∷ key) value k =
    ground (arith, k.starts, starts_with-eq (c ∷ key) (value ++ codes "\n"))

is_line_of-end : (key : Text) → IsKey key → is_line_of key (codes "\n") ≡ false
unfolding is_line_of lstrip is_space starts_with
is_line_of-end [] k = absurd (ground (arith, k.starts))
is_line_of-end (c ∷ key) k = refl

module _ (key value : Text) (is_key : IsKey key) (is_value : IsValue value) where
  IsOwn : Text → Type 0
  IsOwn line = is_line_of key line ≡ sets key (parse_line line)

  env_line-IsOwn : IsOwn (env_line key value)
  unfolding IsOwn
  env_line-IsOwn =
      is_line_of-env_line key value is_key
      ∙ sym (
          ap (sets key) (parse_line-env_line key value is_key is_value)
          ∙ (text_eq_iff key key).1 refl)

  end-IsOwn : IsOwn (codes "\n")
  unfolding IsOwn
  end-IsOwn = is_line_of-end key is_key ∙ sym (ap (sets key) parse_line-end)

  replace_lines-IsRegular :
      (lines : List Text) → IsRegular key lines → IsRegular key (replace_lines key value lines)
  unfolding replace_lines IsOwn
  replace_lines-IsRegular [] r = tt
  replace_lines-IsRegular (line ∷ lines) r =
      (if-both IsOwn (is_line_of key line) env_line-IsOwn r.0, replace_lines-IsRegular lines r.1)

  missing_end-IsRegular : (lines : List Text) → IsRegular key (missing_end lines)
  unfolding missing_end IsOwn
  missing_end-IsRegular [] = tt
  missing_end-IsRegular (line ∷ []) = if-both (All IsOwn) (ends_with b'\n' line) tt (end-IsOwn, tt)
  missing_end-IsRegular (line ∷ next ∷ lines) = missing_end-IsRegular (next ∷ lines)

  pub write_env_key-IsRegular :
      (lines : List Text) → IsRegular key lines → IsRegular key (write_env_key key value lines)
  unfolding write_env_key IsOwn
  write_env_key-IsRegular lines r =
      let replaced = replace_lines-IsRegular lines r in
      let new_lines = replace_lines key value lines in
      if-both (IsRegular key) (is_found key lines) replaced (
        All-append IsOwn new_lines (missing_end new_lines ++ env_line key value ∷ []) replaced (
          All-append IsOwn (missing_end new_lines) (env_line key value ∷ [])
            (missing_end-IsRegular new_lines) (env_line-IsOwn, tt)))
