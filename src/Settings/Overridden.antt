-- ===== src/Settings/Overridden.antt =====
-- What a setting is after it was overridden, and after the override was cleared.
use usrp_playground.Prelude.{
  ℕ, ◌≡◌, ◌+◌, refl, sym, ap, ◌∙◌, Option, some, ok, ltb, if◌then◌else◌, arith, Bool-cases, inl,
  inr,
}
use usrp_playground.Prelude.Text.{Text, text_eq, text_eq_iff}
use usrp_playground.Prelude.Dict.{Dict, insert, IsDict, insert-IsDict, lookup-insert, lookup-remove}
use usrp_playground.Settings.{write_env_key}
use usrp_playground.Settings.Written.{IsKey, IsValue}
use usrp_playground.Settings.Stored.{IsRegular, lookup-write_env_key}
use usrp_playground.Settings.Cleared.{lookup-clear_env_key}
use usrp_playground.Settings.Regular.{write_env_key-IsRegular}
use usrp_playground.Settings.Store.{
  Store, cache_ttl, lines_of, refresh, file_get, write_key, clear_override, raw_value, set_override,
  Kind, Python,
}

if-same : (key : Text) {x : Option Text} (y : Option Text) → (if text_eq key key then x else y) ≡ x
if-same key y = rw ((text_eq_iff key key).1 refl) refl

module _ (key value : Text) (is_key : IsKey key) (is_value : IsValue value) (later : ℕ) where
  -- The value that was written is the one that is found, from the cache or from the file.
  raw_value-write_key :
      (s : Store)
      → IsRegular key (lines_of s.file)
      → raw_value later key (write_key key value s) ≡ some value
  unfolding raw_value file_get refresh write_key
  raw_value-write_key s r =
      let reread =
        lookup-write_env_key key value (lines_of s.file) key is_key is_value r ∙ if-same key _ in
      let cached = lookup-insert key key value s.cache ∙ if-same key _ in
      elim (Bool-cases (ltb (s.cache_ts + cache_ttl) later)) [
        | inl stale ↦ rw (raw_value, refresh, stale) (rw reread refl)
        | inr fresh ↦ rw (raw_value, refresh, fresh) (rw cached refl)
      ]

  -- After the override is cleared, the value that is found is still the one that was written.
  raw_value-clear_override :
      (s : Store)
      → IsRegular key (lines_of s.file)
      → IsDict s.cache
      → raw_value later key (clear_override key (write_key key value s)) ≡ some value
  unfolding raw_value file_get refresh write_key clear_override
  raw_value-clear_override s r d =
      let written = write_env_key key value (lines_of s.file) in
      let reread =
        lookup-clear_env_key key written key
          (write_env_key-IsRegular key value is_key is_value (lines_of s.file) r)
        ∙ if-same key _ in
      let cached =
        lookup-remove key key (insert key value s.cache) (insert-IsDict key value s.cache d)
        ∙ if-same key _ in
      let in_environ = lookup-insert key key value s.environ ∙ if-same key _ in
      elim (Bool-cases (ltb (s.cache_ts + cache_ttl) later)) [
        | inl stale ↦ rw (raw_value, refresh, stale) (rw reread in_environ)
        | inr fresh ↦ rw (raw_value, refresh, fresh) (rw cached in_environ)
      ]

module _ (py : Python) (editable_keys : Dict Kind) where
  set_override-written :
      (key value : Text) (s s' : Store)
      → set_override py editable_keys key value s ≡ ok s'
      → write_key key value s ≡ s'
  unfolding set_override
  set_override-written key value s s' h = ground (arith, h)

  -- A setting that was overridden is found with the value written, at any time after and also after
  -- `clear_override`, if nothing else is written in between: for a key and a value that a line can
  -- hold, a file in which the lines that are taken for lines of the key are those that set it, and
  -- a cache in which no key stands twice.
  pub raw_value-set_override :
      (later : ℕ) (key value : Text) (s s' : Store)
      → set_override py editable_keys key value s ≡ ok s'
      → IsKey key
      → IsValue value
      → IsRegular key (lines_of s.file)
      → IsDict s.cache
      → (raw_value later key s' ≡ some value)
        × (raw_value later key (clear_override key s') ≡ some value)
  raw_value-set_override later key value s s' h is_key is_value r d =
      let written = set_override-written key value s s' h in
      (
        ap (raw_value later key) (sym written)
            ∙ raw_value-write_key key value is_key is_value later s r,
        ap (λ t. raw_value later key (clear_override key t)) (sym written)
            ∙ raw_value-clear_override key value is_key is_value later s r d,
      )
