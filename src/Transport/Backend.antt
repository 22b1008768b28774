-- ===== src/Transport/Backend.antt =====
-- `class TransportBackend` of modoboa/transport/backends.py. Whether a value passes the validators of
-- host names and addresses is an argument: they are not the source's.
use mrt_post_office.Prelude.{
  Bool, true, false, not, ◌&&◌, Option, none, some, List, [], ◌∷◌, ◌++◌, Text, if◌then◌else◌, ◌==◌,
  text_eq,
}
use mrt_post_office.Prelude.Int.{ℤ, pos, eqb_ℤ}
use mrt_post_office.Prelude.Chars.{codes}
use mrt_post_office.Prelude.Dict.{Dict, lookup}

-- A value of `values`
pub data Value : Type 0 where
  string : Text → Value
  integer : ℤ → Value
  boolean : Bool → Value

-- One dictionary of `settings`, with `"string"` and True where it has no type and no `required`
pub record Setting : Type 0 where
  pub name : Text
  pub required : Bool
  pub setting_type : Text
  pub validator : Option Text

pub data Problem : Type 0 where
  is_required invalid_value : Problem

pub record Backend : Type 0 where
  pub name : Text
  pub settings : List Setting

-- `not value`
abbrev pub is_falsy : Value → Bool
is_falsy (string []) = true
is_falsy (string (_ ∷ _)) = false
is_falsy (integer n) = eqb_ℤ n (pos 0)
is_falsy (boolean b) = not b

-- `isinstance(value, int)`: a Boolean is an integer too
abbrev pub is_int : Value → Bool
is_int (string _) = false
is_int (integer _) = true
is_int (boolean _) = true

abbrev pub is_bool : Value → Bool
is_bool (boolean _) = true
is_bool _ = false

abbrev pub is_setting : Text → Setting → Bool
is_setting t s = s.setting_type == t

-- `hasattr(self, f"_validate_{validator}")`: the class has one such method
abbrev pub has_validator : Option Text → Bool
has_validator none = false
has_validator (some v) = v == codes "host_address"

abbrev pub field_name : Text → Setting → Text
field_name backend setting = backend ++ b'_' ∷ setting.name

abbrev pub add_problem : Text → Option Problem → List (Text × Problem) → List (Text × Problem)
add_problem fname none errors = errors
add_problem fname (some p) errors = (fname, p) ∷ errors

module _ (valid_hostname valid_address : Value → Bool) where
  -- `_validate_host_address`: the first validator that raises nothing decides
  unfoldable pub validate_host_address : Value → Bool
  validate_host_address value =
      if valid_hostname value then true else if valid_address value then true else false

  -- the tests that lead to `continue`
  unfoldable pub is_valid : Setting → Value → Bool
  unfolding validate_host_address
  is_valid setting value =
      if is_setting (codes "string") setting
      then if has_validator setting.validator then validate_host_address value else true
      else if is_setting (codes "int") setting && is_int value
      then true
      else is_setting (codes "boolean") setting && is_bool value

  -- one round of the loop; no value and a false one are the same
  unfoldable pub check_setting : Setting → Option Value → Option Problem
  check_setting setting none = if setting.required then some is_required else none
  check_setting setting (some value) =
      if is_falsy value
      then if setting.required then some is_required else none
      else if is_valid setting value
      then none
      else some invalid_value

  unfoldable pub clean_settings : Text → List Setting → Dict Text Value → List (Text × Problem)
  clean_settings backend [] values = []
  clean_settings backend (setting ∷ settings) values =
      let fname = field_name backend setting in
      add_problem fname (check_setting setting (lookup fname values))
        (clean_settings backend settings values)

  -- `clean_fields`
  unfoldable pub clean_fields : Backend → Dict Text Value → List (Text × Problem)
  clean_fields b values = clean_settings b.name b.settings values
