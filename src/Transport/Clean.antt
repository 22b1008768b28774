-- ===== src/Transport/Clean.antt =====
-- What `clean_fields` accepts.
use mrt_post_office.Prelude.{
  ◌≡◌, ◌≢◌, Bool, true, false, Option, none, some, List, [], Text, All, ◌⊎◌, text_eq, ⊤,
}
use mrt_post_office.Prelude.Int.{pos}
use mrt_post_office.Prelude.Chars.{codes}
use mrt_post_office.Prelude.Dict.{Dict, lookup}
use mrt_post_office.Transport.Backend.{
  Value, string, integer, boolean, Setting, Backend, field_name,
}

-- The empty text, the number 0 and false count as no value.
abbrev pub IsMissing : Value → Type 0
IsMissing value = (value ≡ string []) ⊎ ((value ≡ integer (pos 0)) ⊎ (value ≡ boolean false))

-- A validator other than that of host addresses is not looked at.
abbrev pub HasNoCheck : Option Text → Type 0
HasNoCheck none = ⊤
HasNoCheck (some v) = v ≢ codes "host_address"

module _ (valid_hostname valid_address : Value → Bool) where
  -- a host name or an address, where the setting is one
  abbrev pub SuitsText : Setting → Value → Type 0
  SuitsText setting value =
      (setting.setting_type ≡ codes "string")
      × (HasNoCheck setting.validator
          ⊎ ((valid_hostname value ≡ true) ⊎ (valid_address value ≡ true)))

  -- by the type of the value: what type the setting has; true and false are numbers as well
  abbrev pub Suits : Setting → Value → Type 0
  Suits setting (string s) = SuitsText setting (string s)
  Suits setting (integer n) = SuitsText setting (integer n) ⊎ (setting.setting_type ≡ codes "int")
  Suits setting (boolean b) =
      SuitsText setting (boolean b)
      ⊎ ((setting.setting_type ≡ codes "int") ⊎ (setting.setting_type ≡ codes "boolean"))

  -- a setting that is left out where it may be, or has a value that suits it
  abbrev pub IsFilled : Setting → Option Value → Type 0
  IsFilled setting none = setting.required ≡ false
  IsFilled setting (some value) =
      (IsMissing value × (setting.required ≡ false)) ⊎ (¬ (IsMissing value) × Suits setting value)

  abbrev pub AllFilled : Text → List Setting → Dict Text Value → Type 0
  AllFilled backend settings values =
      All (λ setting. IsFilled setting (lookup (field_name backend setting) values)) settings
