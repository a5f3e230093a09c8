-- ===== src/Daemon/Values.antt =====
-- usrp_testbed_library/usrp_common.py: the checks of the values in a request. JSON values and Python's
-- conversions of them are a parameter; `none` is a conversion that raises.
use usrp_playground.Prelude.{
  ℕ, Bool, true, false, not, ◌&&◌, List, [], ◌∷◌, Option, none, some, length, ◌==◌, if◌then◌else◌,
  Result, ok, err, ◌>>=◌, ◌>>◌, raise_if,
}
use usrp_playground.Prelude.Text.{Text}
use usrp_playground.Prelude.Int.{ℤ, pos, negsuc}
use usrp_playground.Prelude.Numbers.{set_at}
use usrp_playground.Daemon.Radio.{Floats}
use usrp_playground.Daemon.Asked.{Antenna, any_without_gain}

pub record Values (fl : Floats) : Type 1 where
  pub Value : Type 0
  pub to_int : Value → Option ℤ
  pub to_float : Value → Option fl.Float
  pub to_text : Value → Text
  pub is_none : Value → Bool
  pub is_true : Value → Bool
  pub list_of : Value → Option (List Value)
  pub dict_of : Value → Option (List (Value × Value))
  pub antenna_of : Value → Antenna
  -- `x <= 0.0` and `x < 0.0`.
  pub is_not_positive : fl.Float → Bool
  pub is_negative : fl.Float → Bool

pub data BadValue : Type 0 where
  not_a_float not_positive negative not_an_int not_a_list empty_list : BadValue
  not_a_dict bad_channel_key missing_gain_channels : BadValue

module _ (fl : Floats) (py : Values fl) where
  unfoldable pub float_or : Option fl.Float → Result BadValue fl.Float
  float_or none = err not_a_float
  float_or (some x) = ok x

  unfoldable pub positive_float : py.Value → Result BadValue fl.Float
  unfolding float_or
  positive_float value = do
    x ← float_or (py.to_float value)
    raise_if (py.is_not_positive x) not_positive
    ok x

  unfoldable pub not_negative_float : py.Value → Result BadValue fl.Float
  unfolding float_or
  not_negative_float value = do
    x ← float_or (py.to_float value)
    raise_if (py.is_negative x) negative
    ok x

  -- One entry of a list: not negative, or positive.
  unfoldable pub int_entry : Bool → Option ℤ → Result BadValue ℕ
  int_entry non_negative none = err not_an_int
  int_entry non_negative (some (negsuc n)) = err negative
  int_entry non_negative (some (pos n)) =
      if not non_negative && n == 0 then err not_positive else ok n

  unfoldable pub int_entries : Bool → List py.Value → Result BadValue (List ℕ)
  unfolding int_entry
  int_entries non_negative [] = ok []
  int_entries non_negative (v ∷ vs) = do
    n ← int_entry non_negative (py.to_int v)
    ns ← int_entries non_negative vs
    ok (n ∷ ns)

  unfoldable pub int_list : Bool → Bool → py.Value → Result BadValue (List ℕ)
  unfolding int_entries
  int_list non_negative allow_empty value = elim (py.list_of value) [
    | none ↦ err not_a_list
    | some vs ↦ do
      ns ← int_entries non_negative vs
      raise_if (length ns == 0 && not allow_empty) empty_list
      ok ns
  ]

  -- A negative key is a key that no channel has.
  unfoldable pub set_gain :
      Option ℤ → fl.Float → List (ℕ × fl.Float) → Result BadValue (List (ℕ × fl.Float))
  unfolding set_at
  set_gain none g validated = err bad_channel_key
  set_gain (some (negsuc n)) g validated = ok validated
  set_gain (some (pos n)) g validated = ok (set_at n g validated)

  unfoldable pub validate_gains :
      List (py.Value × py.Value) → List (ℕ × fl.Float) → Result BadValue (List (ℕ × fl.Float))
  unfolding set_gain not_negative_float
  validate_gains [] validated = ok validated
  validate_gains ((key, value) ∷ rest) validated = do
    raise_if (elim (py.to_int key) [ none ↦ true | some k ↦ false ]) bad_channel_key
    gain ← not_negative_float value
    validated' ← set_gain (py.to_int key) gain validated
    validate_gains rest validated'

  unfoldable pub validate_gain_dict : py.Value → List ℕ → Result BadValue (List (ℕ × fl.Float))
  unfolding validate_gains any_without_gain
  validate_gain_dict value required_channels = elim (py.dict_of value) [
    | none ↦ err not_a_dict
    | some items ↦ do
      validated ← validate_gains items []
      raise_if (any_without_gain fl validated required_channels) missing_gain_channels
      ok validated
  ]
