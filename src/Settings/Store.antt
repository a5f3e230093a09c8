-- ===== src/Settings/Store.antt =====
-- entrypoint/settings_store.py: the file of settings behind its cache, with the environment behind both.
-- Times are in milliseconds of the monotonic clock.
use usrp_playground.Prelude.{
  ℕ, ◌+◌, Bool, true, List, [], Option, none, some, Result, ok, err, ltb, if◌then◌else◌,
}
use usrp_playground.Prelude.Text.{Text, strip}
use usrp_playground.Prelude.Dict.{Dict, lookup, insert, remove}
use usrp_playground.Settings.{parse_env_file, write_env_key, clear_env_key}

-- The file of the host, or none, `_file_cache` with its time, and `os.environ`.
pub record Store : Type 0 where
  pub file : Option (List Text)
  pub cache : Dict Text
  pub cache_ts : ℕ
  pub environ : Dict Text

abbrev pub cache_ttl : ℕ
cache_ttl = 2000

-- A file that is not there has no lines.
abbrev pub lines_of : Option (List Text) → List Text
lines_of none = []
lines_of (some lines) = lines

unfoldable pub refresh : ℕ → Store → Store
refresh now s =
    if ltb (s.cache_ts + cache_ttl) now
    then record {
      file = s.file;
      cache = parse_env_file (lines_of s.file) [];
      cache_ts = now;
      environ = s.environ;
    }
    else s

-- `_file_get`: the value, and the store after it.
unfoldable pub file_get : ℕ → Text → Store → Option Text × Store
file_get now key s = let fresh = refresh now s in (lookup key fresh.cache, fresh)

-- `_write_env_key`. The time of the cache stays: `_file_cache_ts` is a local name there.
unfoldable pub write_key : Text → Text → Store → Store
unfolding insert
write_key key value s = record {
  file = some (write_env_key key value (lines_of s.file));
  cache = insert key value s.cache;
  cache_ts = s.cache_ts;
  environ = insert key value s.environ;
}

-- `clear_override`.
unfoldable pub clear_override : Text → Store → Store
unfolding remove
clear_override key s = elim s.file [
  | none ↦ s
  | some lines ↦ record {
    file = some (clear_env_key key lines);
    cache = remove key s.cache;
    cache_ts = s.cache_ts;
    environ = s.environ;
  }
]

-- What `get` finds for a key that is not locked, before the conversion.
unfoldable pub raw_value : ℕ → Text → Store → Option Text
unfolding file_get
raw_value now key s = elim (file_get now key s).0 [
  | none ↦ lookup key s.environ
  | some value ↦ some value
]

-- `_live_get`.
unfoldable pub live_get : ℕ → Text → Store → Text
unfolding raw_value strip
live_get now key s = elim (raw_value now key s) [ none ↦ [] | some value ↦ strip value ]

pub data Rejected : Type 0 where
  not_editable value_error : Rejected

-- The types of the keys that can be edited; any other type leaves the text.
pub data Kind : Type 0 where
  int_kind float_kind bool_kind text_kind : Kind

-- What `int` and `float` take.
pub record Python : Type 0 where
  pub parses_int : Text → Bool
  pub parses_float : Text → Bool

-- Whether `_coerce` returns.
unfoldable pub coerces : Python → Kind → Text → Bool
coerces py int_kind value = py.parses_int value
coerces py float_kind value = py.parses_float value
coerces py bool_kind value = true
coerces py text_kind value = true

-- `set_override`, over the types of `EDITABLE_KEYS`.
unfoldable pub set_override : Python → Dict Kind → Text → Text → Store → Result Rejected Store
unfolding write_key
set_override py editable_keys key value s = elim (lookup key editable_keys) [
  | none ↦ err not_editable
  | some kind ↦ if coerces py kind value then ok (write_key key value s) else err value_error
]
