-- ===== src/Parameters/Registry.antt =====
-- `class Registry` of modoboa/parameters/tools.py: what is declared for each level and application,
-- with the default values. A parameter's value is an `Option V`, `none` being Python's `None`.
use mrt_post_office.Prelude.{Bool, false, Option, none, some, List, [], ◌∷◌, map, Text, text_eq}
use mrt_post_office.Prelude.Dict.{Dict, lookup, contains, insert}
use mrt_post_office.Prelude.Result.{Result, ok, or_raise, ◌>>=◌}

-- `NotDefined(app, name)`, and the `KeyError` of a plain subscript
pub data Error : Type 0 where
  not_defined : Text → Option Text → Error
  key_error : Text → Error

-- The keys of `_registry2`
pub data Level : Type 0 where
  global user : Level

-- A field of a serializer as the registry reads it; `default = none` is the framework's `empty`.
pub record Field (V : Type 0) : Type 0 where
  pub default : Option (Option V)
  pub class_name : Text
  pub choices : List (V × Text)

-- One entry of `sconfig["params"]`
pub record Config : Type 0 where
  pub label : Text
  pub help_text : Option Text
  pub display : Option Text
  pub separator : Bool
  pub password : Bool
  pub widget : Option Text

pub record Section : Type 0 where
  pub label : Text
  pub display : Option Text
  pub params : Dict Text Config

-- The record that `add` stores for an application
pub record AppData (V : Type 0) : Type 0 where
  pub label : Text
  pub structure : Dict Text Section
  pub fields : Dict Text (Field V)
  pub is_extension : Bool
  pub defaults : Dict Text (Option V)

pub record Registry (V : Type 0) : Type 0 where
  pub global_apps : Dict Text (AppData V)
  pub user_apps : Dict Text (AppData V)

module _ {V : Type 0} where
  -- `self._registry2[level]`
  abbrev pub at_level : Registry V → Level → Dict Text (AppData V)
  at_level r global = r.global_apps
  at_level r user = r.user_apps

  abbrev pub with_level : Registry V → Level → Dict Text (AppData V) → Registry V
  with_level r global apps = record r { global_apps = apps }
  with_level r user apps = record r { user_apps = apps }

  -- `Registry.__init__`
  abbrev pub empty : Registry V
  empty = record { global_apps = []; user_apps = [] }

  unfoldable pub add :
      Level → Text → Text → Dict Text Section → Dict Text (Field V) → Bool → Registry V → Registry V
  add level app label structure fields is_extension r = with_level r level (
      insert app
        (record {
          label = label;
          structure = structure;
          fields = fields;
          is_extension = is_extension;
          defaults = [];
        })
        (at_level r level))

  -- the inner loop of `_load_default_values`
  abbrev pub load_fields : Dict Text (Field V) → Dict Text (Option V) → Dict Text (Option V)
  load_fields [] defaults = defaults
  load_fields ((name, field) ∷ fields) defaults =
      load_fields fields
        (insert name (elim field.default [ some value ↦ value | none ↦ none ]) defaults)

  abbrev pub load_apps : Dict Text (AppData V) → Dict Text (AppData V)
  load_apps [] = []
  load_apps ((app, info) ∷ apps) =
      (app, record info { defaults = load_fields info.fields info.defaults }) ∷ load_apps apps

  unfoldable pub load_default_values : Level → Registry V → Registry V
  load_default_values level r = with_level r level (load_apps (at_level r level))

  -- name, label and `is_extension` of each application
  unfoldable pub get_applications : Level → Registry V → List (Text × Text × Bool)
  get_applications level r =
      map (λ (k, info). (k, info.label, info.is_extension)) (at_level r level)

  unfoldable pub get_label : Level → Text → Registry V → Result Error Text
  get_label level app r = do
    info ← or_raise (lookup app (at_level r level)) (key_error app)
    ok info.label

  unfoldable pub get_serializer_class :
      Level → Text → Registry V → Result Error (Dict Text (Field V))
  get_serializer_class level app r = do
    info ← or_raise (lookup app (at_level r level)) (not_defined app none)
    ok info.fields

  -- `parameter = None` and an empty name are both false in `if parameter:`
  abbrev pub has_default : Text → Option (AppData V) → Bool
  has_default p none = false
  has_default p (some info) = contains p info.defaults

  unfoldable pub exists : Level → Text → Option Text → Registry V → Bool
  exists level app none r = contains app (at_level r level)
  exists level app (some []) r = contains app (at_level r level)
  exists level app (some (c ∷ p)) r = has_default (c ∷ p) (lookup app (at_level r level))

  unfoldable pub get_defaults : Level → Text → Registry V → Result Error (Dict Text (Option V))
  get_defaults level app r = do
    info ← or_raise (lookup app (at_level r level)) (not_defined app none)
    ok info.defaults

  unfoldable pub get_default : Level → Text → Text → Registry V → Result Error (Option V)
  get_default level app parameter r = do
    info ← or_raise (lookup app (at_level r level)) (not_defined app none)
    or_raise (lookup parameter info.defaults) (not_defined app none)
