-- ===== src/Parameters/Structure.antt =====
-- The descriptions that `class Registry` builds for the settings pages: `get_structure`,
-- `get_serializers` and `get_secret_parameters` of modoboa/parameters/tools.py.
use mrt_post_office.Prelude.{
  Bool, false, not, Option, none, some, List, [], ◌∷◌, ◌++◌, map, Text, if◌then◌else◌, get_or, ◌==◌,
  text_eq,
}
use mrt_post_office.Prelude.Dict.{Dict, lookup}
use mrt_post_office.Prelude.Chars.{codes, text_ltb}
use mrt_post_office.Prelude.Result.{Result, ok, or_raise, ◌>>=◌}
use mrt_post_office.Parameters.Registry.{
  Error, key_error, Level, Field, Config, Section, AppData, Registry, at_level,
}

-- The `data` dictionary of one parameter; `widget` and `choices` as `get_structure` fills them
pub record ParameterInfo (V : Type 0) : Type 0 where
  pub name : Text
  pub label : Text
  pub help_text : Text
  pub display : Text
  pub widget : Text
  pub choices : Option (List (Text × V))

pub record SectionInfo (V : Type 0) : Type 0 where
  pub label : Text
  pub display : Text
  pub parameters : List (ParameterInfo V)

-- `for_app and for_app != app`: an empty name skips nothing
abbrev pub skips : Option Text → Text → Bool
skips none app = false
skips (some []) app = false
skips (some (c ∷ name)) app = not ((c ∷ name) == app)

abbrev pub secret_names : Dict Text Config → List Text
secret_names [] = []
secret_names ((name, config) ∷ params) =
    if config.password then name ∷ secret_names params else secret_names params

abbrev pub secrets_of : Dict Text Section → List Text
secrets_of [] = []
secrets_of ((_, sconfig) ∷ structure) = secret_names sconfig.params ++ secrets_of structure

module _ {V : Type 0} where
  -- the widget of a parameter that is no separator and no password
  abbrev pub plain_widget : Config → Field V → Text
  plain_widget config field = get_or config.widget field.class_name

  abbrev pub choices_for : Text → Field V → Option (List (Text × V))
  choices_for widget field =
      if widget == codes "ChoiceField"
      then some (map (λ (key, value). (value, key)) field.choices)
      else none

  abbrev pub describe : Text → Config → Text → Option (List (Text × V)) → ParameterInfo V
  describe name config widget choices = record {
    name = name;
    label = config.label;
    help_text = get_or config.help_text [];
    display = get_or config.display [];
    widget = widget;
    choices = choices;
  }

  unfoldable pub parameter_info :
      Dict Text (Field V) → Text → Config → Result Error (ParameterInfo V)
  parameter_info fields name config =
      if config.separator then ok (describe name config (codes "SeparatorField") none) else do
        field ← or_raise (lookup name fields) (key_error name)
        ok (
            if config.password
            then describe name config (codes "PasswordField") none
            else describe name config (plain_widget config field)
                (choices_for (plain_widget config field) field))

  unfoldable pub section_parameters :
      Dict Text (Field V) → Dict Text Config → Result Error (List (ParameterInfo V))
  section_parameters fields [] = ok []
  section_parameters fields ((name, config) ∷ params) = do
    info ← parameter_info fields name config
    rest ← section_parameters fields params
    ok (info ∷ rest)

  unfoldable pub app_sections :
      Dict Text (Field V) → Dict Text Section → Result Error (List (SectionInfo V))
  app_sections fields [] = ok []
  app_sections fields ((_, sconfig) ∷ structure) = do
    parameters ← section_parameters fields sconfig.params
    rest ← app_sections fields structure
    ok (
        record {
          label = sconfig.label;
          display = get_or sconfig.display [];
          parameters = parameters;
        }
        ∷ rest)

  abbrev pub structure_of_apps :
      Option Text → Dict Text (AppData V) → Result Error (List (SectionInfo V))
  structure_of_apps for_app [] = ok []
  structure_of_apps for_app ((app, info) ∷ apps) =
      let rest = structure_of_apps for_app apps in
      if skips for_app app
      then rest
      else do sections ← app_sections info.fields info.structure; more ← rest; ok (sections ++ more)

  unfoldable pub get_structure :
      Level → Option Text → Registry V → Result Error (List (SectionInfo V))
  get_structure level for_app r = structure_of_apps for_app (at_level r level)

  -- `sorted(..., key=label)`, which is stable: an insertion sort
  abbrev pub insert_by_label : Text × AppData V → Dict Text (AppData V) → Dict Text (AppData V)
  insert_by_label a [] = a ∷ []
  insert_by_label a (b ∷ apps) =
      if text_ltb b.1.label a.1.label then b ∷ insert_by_label a apps else a ∷ b ∷ apps

  abbrev pub sort_by_label : Dict Text (AppData V) → Dict Text (AppData V)
  sort_by_label [] = []
  sort_by_label (a ∷ apps) = insert_by_label a (sort_by_label apps)

  abbrev pub core_first : Dict Text (AppData V) → Dict Text (AppData V)
  core_first [] = []
  core_first ((app, info) ∷ apps) =
      if app == codes "core" then (app, info) ∷ [] else core_first apps

  abbrev pub without_core : Dict Text (AppData V) → Dict Text (AppData V)
  without_core [] = []
  without_core ((app, info) ∷ apps) =
      if app == codes "core" then without_core apps else (app, info) ∷ without_core apps

  -- app, label and serializer of each application: "core" first, the others by label
  unfoldable pub get_serializers : Level → Registry V → List (Text × Text × Dict Text (Field V))
  get_serializers level r =
      map (λ (app, info). (app, info.label, info.fields))
        (core_first (at_level r level) ++ sort_by_label (without_core (at_level r level)))

  -- the set, listed in the order of the structure
  unfoldable pub get_secret_parameters : Level → Text → Registry V → List Text
  get_secret_parameters level app r = elim (lookup app (at_level r level)) [
    | none ↦ []
    | some info ↦ secrets_of info.structure
  ]
