-- ===== src/Settings/Written.antt =====
-- What is read back from a file that was written.
use usrp_playground.Prelude.{
  ℕ, ◌≡◌, refl, sym, ap, ◌∙◌, Bool, true, false, not, [], ◌∷◌, ◌++◌, some, arith,
}
use usrp_playground.Prelude.Text.{
  Text, codes, is_space, strip, lstrip, rstrip, strip_end, starts_with, contains, rstrip-rstrip,
}
use usrp_playground.Settings.{
  split_at_eq, cut_comment, is_quoted, unquote, parse_value, parse_line, env_line,
}

rstrip-append_space : (xs : Text) (c : ℕ) → is_space c ≡ true → rstrip (xs ++ c ∷ []) ≡ rstrip xs
unfolding rstrip strip_end
rstrip-append_space [] c h = ground (arith, h)
rstrip-append_space (x ∷ xs) c h = ap (strip_end x) (rstrip-append_space xs c h)

rstrip-append : (xs t : Text) (d : ℕ) (u : Text) → rstrip t ≡ d ∷ u → rstrip (xs ++ t) ≡ xs ++ d ∷ u
unfolding rstrip strip_end
rstrip-append [] t d u h = h
rstrip-append (x ∷ []) t d u h = ground (arith, h)
rstrip-append (x ∷ y ∷ xs) t d u h = ap (strip_end x) (rstrip-append (y ∷ xs) t d u h)

split_at_eq-append :
    (key v : Text)
    → contains (codes "=") key ≡ false
    → split_at_eq (key ++ b'=' ∷ v) ≡ some (key, v)
unfolding split_at_eq contains starts_with
split_at_eq-append [] v h = refl
split_at_eq-append (c ∷ key) v h = ground (arith, h, split_at_eq-append key v)

cut_comment-same : (v : Text) → contains (codes " #") v ≡ false → cut_comment v ≡ v
unfolding cut_comment contains
cut_comment-same [] h = refl
cut_comment-same (c ∷ v) h = ground (arith, h, cut_comment-same v)

unquote-same : (v : Text) → is_quoted v ≡ false → unquote v ≡ v
unfolding unquote
unquote-same [] h = refl
unquote-same (c ∷ v) h = rw h

abbrev pub starts_plain : Text → Bool
starts_plain [] = false
starts_plain (c ∷ s) = not (is_space c)

-- A name of a setting: no space at its ends, no `=`, and no `#` in front.
pub record IsKey (key : Text) : Type 0 where
  pub starts : starts_plain key ≡ true
  pub one_line : contains (codes "\n") key ≡ false
  pub no_eq : contains (codes "=") key ≡ false
  pub no_comment : starts_with (codes "#") key ≡ false
  pub stripped : strip key ≡ key

-- A value without space at its ends, quotation marks round it, or a comment.
pub record IsValue (value : Text) : Type 0 where
  pub one_line : contains (codes "\n") value ≡ false
  pub no_comment : contains (codes " #") value ≡ false
  pub not_quoted : is_quoted value ≡ false
  pub stripped : strip value ≡ value

rstrip-strip : (s : Text) → strip s ≡ s → rstrip s ≡ s
unfolding strip
rstrip-strip s h = ap rstrip (sym h) ∙ rstrip-rstrip (lstrip s) ∙ h

strip_end-eq : (v : Text) → strip_end b'=' v ≡ b'=' ∷ v
unfolding strip_end is_space
strip_end-eq [] = refl
strip_end-eq (c ∷ v) = refl

rstrip-value : (v : Text) → strip v ≡ v → rstrip (b'=' ∷ (v ++ codes "\n")) ≡ b'=' ∷ v
unfolding rstrip is_space
rstrip-value v h =
    ap (strip_end b'=') (rstrip-append_space v b'\n' refl ∙ rstrip-strip v h) ∙ strip_end-eq v

strip-env_line :
    (c : ℕ) (key value : Text)
    → is_space c ≡ false
    → strip value ≡ value
    → strip (env_line (c ∷ key) value) ≡ c ∷ key ++ b'=' ∷ value
unfolding strip lstrip
strip-env_line c key value k v = rw k (rstrip-append (c ∷ key) _ b'=' value (rstrip-value value v))

pub parse_line-env_line :
    (key value : Text)
    → IsKey key
    → IsValue value
    → parse_line (env_line key value) ≡ some (key, value)
unfolding parse_line parse_value
parse_line-env_line [] value k v = absurd (ground (arith, k.starts))
parse_line-env_line (c ∷ key) value k v = ground (
  arith,
  strip-env_line c key value (ground (arith, k.starts)) v.stripped,
  k.no_comment,
  k.stripped,
  split_at_eq-append (c ∷ key) value k.no_eq,
  cut_comment-same value v.no_comment,
  v.stripped,
  unquote-same value v.not_quoted,
)
