-- ===== src/Examples/Overrides.antt =====
-- A file of settings in which one is written, then cleared.
use usrp_playground.Prelude.{◌≡◌, refl, List, [], ◌∷◌, some, ok, Bool, false, true}
use usrp_playground.Prelude.Text.{
  Text, codes, text_eq, strip, rstrip, lstrip, strip_end, is_space, contains, starts_with,
}
use usrp_playground.Prelude.Dict.{Dict, lookup}
use usrp_playground.Settings.Store.{
  Kind, int_kind, coerces, Python, Store, raw_value, clear_override, set_override, write_key,
}
use usrp_playground.Settings.Overridden.{raw_value-set_override}
use usrp_playground.Settings.{
  parse_env_file, write_env_key, is_line_of, parse_line, parse_value, is_quoted, split_at_eq,
}
use usrp_playground.Settings.Written.{IsKey, IsValue}
use usrp_playground.Settings.Stored.{IsRegular, lookup-write_env_key}

abbrev gain : Text
gain = codes "GAIN"

abbrev twelve : Text
twelve = codes "12"

-- A comment, a line with a space before `=`, and one without its end.
abbrev settings_file : List Text
settings_file = codes "# radio\n" ∷ codes "GAIN = \"10\" # dB\n" ∷ codes "RATE=2" ∷ []

gain-IsKey : IsKey gain
unfolding contains starts_with strip lstrip rstrip strip_end is_space
gain-IsKey = record {
  starts = refl;
  one_line = refl;
  no_eq = refl;
  no_comment = refl;
  stripped = refl;
}

twelve-IsValue : IsValue twelve
unfolding contains starts_with strip lstrip rstrip strip_end is_space is_quoted
twelve-IsValue = record { one_line = refl; no_comment = refl; not_quoted = refl; stripped = refl }

settings_file-IsRegular : IsRegular gain settings_file
unfolding is_line_of parse_line strip is_space split_at_eq text_eq
settings_file-IsRegular = (refl, (refl, (refl, tt)))

lookup-write_env_key_example :
    lookup (codes "RATE") (parse_env_file (write_env_key gain twelve settings_file) [])
    ≡ some (codes "2")
unfolding lookup parse_env_file parse_line parse_value text_eq split_at_eq
lookup-write_env_key_example =
    lookup-write_env_key gain twelve settings_file (codes "RATE") gain-IsKey twelve-IsValue
      settings_file-IsRegular

abbrev at_start : Store
at_start = record { file = some settings_file; cache = []; cache_ts = 0; environ = [] }

-- A text with at least one character counts as a number here.
abbrev not_empty : Text → Bool
not_empty [] = false
not_empty (c ∷ value) = true

abbrev python : Python
python = record { parses_int = not_empty; parses_float = not_empty }

abbrev editable : Dict Kind
editable = (gain, int_kind) ∷ []

abbrev overridden : Store
overridden = write_key gain twelve at_start

set_gain : set_override python editable gain twelve at_start ≡ ok overridden
unfolding set_override lookup text_eq coerces
set_gain = refl

raw_value-set_override_example :
    (raw_value 9000 gain overridden ≡ some twelve)
    × (raw_value 9000 gain (clear_override gain overridden) ≡ some twelve)
raw_value-set_override_example =
    raw_value-set_override python editable 9000 gain twelve at_start overridden set_gain gain-IsKey
      twelve-IsValue settings_file-IsRegular tt
