-- ===== src/Settings.antt =====
-- entrypoint/settings_store.py: the .env file, as the list of its lines with their line ends. The reader
-- is the same in worker/channel.py.
pub mod Written
pub mod Stored
pub mod Regular
pub mod Cleared
pub mod Store
pub mod Overridden
use usrp_playground.Prelude.{
  ℕ, zero, suc, Bool, true, false, not, ◌&&◌, ◌||◌, List, [], ◌∷◌, ◌++◌, Option, none, some, length,
  leb, ◌==◌, if◌then◌else◌,
}
use usrp_playground.Prelude.Text.{Text, codes, is_nil, strip, lstrip, starts_with}
use usrp_playground.Prelude.Dict.{Dict, insert}

-- `stripped.partition("=")`, where there is one.
unfoldable pub split_at_eq : Text → Option (Text × Text)
split_at_eq [] = none
split_at_eq (c ∷ s) =
    if c == b'='
    then some ([], s)
    else elim (split_at_eq s) [ none ↦ none | some (k, v) ↦ some (c ∷ k, v) ]

-- `rest[:rest.index(" #")]`, or all of it.
unfoldable pub cut_comment : Text → Text
unfolding starts_with
cut_comment [] = []
cut_comment (c ∷ s) = if starts_with (codes " #") (c ∷ s) then [] else c ∷ cut_comment s

unfoldable pub ends_with : ℕ → Text → Bool
ends_with q [] = false
ends_with q (c ∷ []) = c == q
ends_with q (c ∷ d ∷ s) = ends_with q (d ∷ s)

-- Two characters or more, of which the first and the last are the same quotation mark.
unfoldable pub is_quoted : Text → Bool
unfolding ends_with
is_quoted (c ∷ d ∷ s) = (c == b'"' || c == b'\'') && ends_with c (d ∷ s)
is_quoted _ = false

unfoldable pub without_last : Text → Text
without_last [] = []
without_last (c ∷ []) = []
without_last (c ∷ d ∷ s) = c ∷ without_last (d ∷ s)

unfoldable pub unquote : Text → Text
unfolding is_quoted without_last
unquote [] = []
unquote (c ∷ s) = if is_quoted (c ∷ s) then without_last s else c ∷ s

unfoldable pub parse_value : Text → Text
unfolding cut_comment strip unquote
parse_value rest = unquote (strip (cut_comment rest))

-- A line that sets a key.
unfoldable pub parse_line : Text → Option (Text × Text)
parse_line line =
    let stripped = strip line in
    if is_nil stripped || starts_with (codes "#") stripped
    then none
    else elim (split_at_eq stripped) [
      | none ↦ none
      | some (key, rest) ↦ some (strip key, parse_value rest)
    ]

unfoldable pub set_line : Option (Text × Text) → Dict Text → Dict Text
unfolding insert
set_line none d = d
set_line (some (key, value)) d = insert key value d

-- `_parse_env_file`, from the keys that were read before.
unfoldable pub parse_env_file : List Text → Dict Text → Dict Text
unfolding set_line
parse_env_file [] d = d
parse_env_file (line ∷ lines) d = parse_env_file lines (set_line (parse_line line) d)

abbrev pub env_line : Text → Text → Text
env_line key value = key ++ b'=' ∷ (value ++ codes "\n")

-- `line.lstrip().startswith(f"{key}=") or line.lstrip().startswith(f"{key} =")`.
unfoldable pub is_line_of : Text → Text → Bool
unfolding starts_with lstrip
is_line_of key line =
    starts_with (key ++ codes "=") (lstrip line) || starts_with (key ++ codes " =") (lstrip line)

unfoldable pub replace_lines : Text → Text → List Text → List Text
replace_lines key value [] = []
replace_lines key value (line ∷ lines) =
    (if is_line_of key line then env_line key value else line) ∷ replace_lines key value lines

unfoldable pub is_found : Text → List Text → Bool
is_found key [] = false
is_found key (line ∷ lines) = is_line_of key line || is_found key lines

-- The end of the last line, where it has none: an entry of its own, as in the list that is written.
unfoldable pub missing_end : List Text → List Text
unfolding ends_with
missing_end [] = []
missing_end (line ∷ []) = if ends_with b'\n' line then [] else codes "\n" ∷ []
missing_end (line ∷ next ∷ lines) = missing_end (next ∷ lines)

-- `_write_env_key`.
unfoldable pub write_env_key : Text → Text → List Text → List Text
write_env_key key value lines =
    let new_lines = replace_lines key value lines in
    if is_found key lines
    then new_lines
    else new_lines ++ (missing_end new_lines ++ env_line key value ∷ [])

-- `clear_override`.
unfoldable pub clear_env_key : Text → List Text → List Text
clear_env_key key [] = []
clear_env_key key (line ∷ lines) =
    let rest = clear_env_key key lines in if is_line_of key line then rest else line ∷ rest
