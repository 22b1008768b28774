-- ===== src/Transport/Tests.antt =====
-- The settings of a relay, with a host and a port.
use mrt_post_office.Prelude.{◌≡◌, refl, Bool, true, false, none, some, [], ◌∷◌, Text, text_eq}
use mrt_post_office.Prelude.Int.{pos}
use mrt_post_office.Prelude.Chars.{codes}
use mrt_post_office.Prelude.Dict.{Dict}
use mrt_post_office.Transport.Backend.{
  Value, string, integer, Backend, clean_fields, clean_settings, check_setting, is_valid,
  validate_host_address,
}

-- a stand-in for the validators: any text
abbrev is_text : Value → Bool
is_text (string _) = true
is_text _ = false

abbrev relay : Backend
relay = record {
  name = codes "relay";
  settings =
      record {
        name = codes "host";
        required = true;
        setting_type = codes "string";
        validator = some (codes "host_address");
      }
      ∷ record {
        name = codes "port";
        required = false;
        setting_type = codes "int";
        validator = none;
      }
      ∷ [];
}

abbrev values : Dict Text Value
values =
    (codes "relay_host", string (codes "mx.a.fr")) ∷ (codes "relay_port", integer (pos 25)) ∷ []

clean : clean_fields is_text is_text relay values ≡ []
unfolding clean_fields clean_settings check_setting is_valid validate_host_address
clean = refl
