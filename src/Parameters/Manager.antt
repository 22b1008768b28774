-- ===== src/Parameters/Manager.antt =====
-- `class Manager` of modoboa/parameters/tools.py. The registry is one object shared by all
-- managers, so each method takes it and, where it writes to it, returns it.
use mrt_post_office.Prelude.{
  Bool, true, false, not, Option, none, some, List, [], ◌∷◌, Text, if◌then◌else◌, get_or, text_eq,
}
use mrt_post_office.Prelude.Dict.{Dict, lookup, insert, update}
use mrt_post_office.Prelude.Chars.{lower}
use mrt_post_office.Prelude.Result.{Result, ok, err, ◌>>=◌}
use mrt_post_office.Parameters.Registry.{
  Error, not_defined, Level, Registry, at_level, with_level, load_default_values, exists,
  get_default, get_defaults,
}

pub record Manager (V : Type 0) : Type 0 where
  pub level : Level
  pub parameters : Dict Text (Dict Text (Option V))

-- `app`, or what `guess_extension_name()` finds on the call stack
abbrev pub resolve : Text → Option Text → Text
resolve guess app = get_or app guess

module _ {V : Type 0} where
  -- `Manager.__init__`: the registry comes back with its default values loaded again
  unfoldable pub init :
      Level → Dict Text (Dict Text (Option V)) → Registry V → Manager V × Registry V
  init level parameters r =
      (record { level = level; parameters = parameters }, load_default_values level r)

  -- `if app in self._parameters: self._parameters[app].get(parameter, default)`
  abbrev pub own_value : Option (Dict Text (Option V)) → Text → Option V → Option V
  own_value none parameter default = default
  own_value (some own) parameter default = get_or (lookup parameter own) default

  abbrev pub or_none : Bool → Result Error (Option V) → Result Error (Option V)
  or_none raise_exception (ok value) = ok value
  or_none true (err e) = err e
  or_none false (err e) = ok none

  unfoldable pub get_value :
      Text → Text → Option Text → Bool → Registry V → Manager V → Result Error (Option V)
  unfolding lower
  get_value guess parameter app raise_exception r m =
      let app' = resolve guess app in
      or_none raise_exception (do
        default ← get_default m.level app' (lower parameter) r
        ok (own_value (lookup app' m.parameters) (lower parameter) default))

  abbrev pub own_values :
      Option (Dict Text (Option V)) → Dict Text (Option V) → Dict Text (Option V)
  own_values own [] = []
  own_values own ((parameter, value) ∷ values) =
      (parameter, own_value own parameter value) ∷ own_values own values

  -- the pairs that the generator yields
  unfoldable pub get_values :
      Text → Option Text → Registry V → Manager V → Result Error (List (Text × Option V))
  get_values guess app r m = do
    values ← get_defaults m.level (resolve guess app) r
    ok (own_values (lookup (resolve guess app) m.parameters) values)

  -- the assignments `values[parameter] = ...` of `get_values_dict`, over a copy of the items
  abbrev pub assign_own :
      Option (Dict Text (Option V))
      → Dict Text (Option V)
      → Dict Text (Option V)
      → Dict Text (Option V)
  assign_own own [] values = values
  assign_own none ((parameter, value) ∷ items) values = assign_own none items values
  assign_own (some own) ((parameter, value) ∷ items) values =
      assign_own (some own) items (insert parameter (own_value (some own) parameter value) values)

  -- a write through the dictionary that `get_defaults` returned, which is the registry's own
  abbrev pub write_defaults : Level → Text → Dict Text (Option V) → Registry V → Registry V
  write_defaults level app values r = elim (lookup app (at_level r level)) [
    | none ↦ r
    | some info ↦
        with_level r level (insert app (record info { defaults = values }) (at_level r level))
  ]

  unfoldable pub get_values_dict :
      Text → Option Text → Registry V → Manager V → Result Error (Dict Text (Option V) × Registry V)
  get_values_dict guess app r m = do
    defaults ← get_defaults m.level (resolve guess app) r
    let values = assign_own (lookup (resolve guess app) m.parameters) defaults defaults
    ok (values, write_defaults m.level (resolve guess app) values r)

  -- `if app not in self._parameters: self._parameters[app] = copy.deepcopy(defaults)`
  abbrev pub materialize :
      Text → Dict Text (Option V) → Dict Text (Dict Text (Option V)) → Dict Text (Option V)
  materialize app defaults parameters = get_or (lookup app parameters) defaults

  unfoldable pub set_value :
      Text → Text → Option V → Option Text → Registry V → Manager V → Result Error (Manager V)
  set_value guess parameter value app r m =
      let app' = resolve guess app in
      if not (exists m.level app' (some parameter) r)
      then err (not_defined app' (some parameter))
      else do
        defaults ← get_defaults m.level app' r
        ok (record m {
          parameters =
              insert app' (insert parameter value (materialize app' defaults m.parameters))
                m.parameters;
        })

  unfoldable pub set_values :
      Text → Dict Text (Option V) → Option Text → Registry V → Manager V → Result Error (Manager V)
  set_values guess values app r m =
      let app' = resolve guess app in
      if not (exists m.level app' none r) then err (not_defined app' none) else do
        defaults ← get_defaults m.level app' r
        ok (record m {
          parameters =
              insert app' (update (materialize app' defaults m.parameters) values) m.parameters;
        })
