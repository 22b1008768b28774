-- ===== src/Parameters/Defaults.antt =====
-- Loading the default values, and how `get_values_dict` writes into them.
use mrt_post_office.Prelude.{
  ◌≡◌, refl, true, Option, none, some, [], ◌∷◌, Text, arith, ◌==◌, text_eq, ==_iff, Bool-cases, inl,
  inr,
}
use mrt_post_office.Prelude.Dict.{
  Dict, lookup, insert, lookup-insert, lookup-insert_self, IsDistinct,
}
use mrt_post_office.Prelude.Chars.{lower}
use mrt_post_office.Prelude.Result.{ok}
use mrt_post_office.Parameters.Registry.{
  Level, global, user, Field, AppData, Registry, at_level, with_level, load_fields, load_apps,
  load_default_values, get_default, get_defaults,
}
use mrt_post_office.Parameters.Manager.{
  Manager, own_value, get_value, assign_own, write_defaults, get_values_dict,
}
use mrt_post_office.Parameters.Access.{shown, get_value-shown}

module _ {V : Type 0} where
  -- the value that a serializer's field starts with: `None` where it declares no default
  abbrev pub initial : Field V → Option V
  initial field = elim field.default [ some value ↦ value | none ↦ none ]

  lookup-load_fields :
      (p : Text) (fields : Dict Text (Field V)) (defaults : Dict Text (Option V))
      → IsDistinct fields
      → lookup p (load_fields fields defaults)
        ≡ elim (lookup p fields) [ none ↦ lookup p defaults | some f ↦ some (initial f) ]
  lookup-load_fields p [] defaults h = refl
  lookup-load_fields p ((name, field) ∷ fields) defaults h = ground (
    arith,
    lookup-load_fields p fields (insert name (initial field) defaults) h.1,
    lookup-insert name p (initial field) defaults,
    ==_iff name p,
  )

  abbrev loaded : AppData V → AppData V
  loaded info = record info { defaults = load_fields info.fields info.defaults }

  lookup-load_apps :
      (app : Text) (apps : Dict Text (AppData V)) (info : AppData V)
      → lookup app apps ≡ some info
      → lookup app (load_apps apps) ≡ some (loaded info)
  lookup-load_apps app [] info h = cc
  lookup-load_apps app ((k, i) ∷ apps) info h = ground (arith, lookup-load_apps app apps info)

  at_level-with_level :
      (r : Registry V) (level : Level) (apps : Dict Text (AppData V))
      → at_level (with_level r level apps) level ≡ apps
  at_level-with_level r global apps = refl
  at_level-with_level r user apps = refl

  -- After the default values are loaded, each field of a declared application with distinct field
  -- names has the default of its serializer, whatever had been written to the registry before.
  pub get_default-load_default_values :
      (level : Level) (app p : Text) (r : Registry V) (info : AppData V) (field : Field V)
      → lookup app (at_level r level) ≡ some info
      → IsDistinct info.fields
      → lookup p info.fields ≡ some field
      → get_default level app p (load_default_values level r) ≡ ok (initial field)
  unfolding get_default load_default_values
  get_default-load_default_values level app p r info field e d f =
      rw (at_level-with_level, lookup-load_apps app (at_level r level) info e)
        (ground (arith, lookup-load_fields p info.fields info.defaults d))

  assign_own_keeps :
      (own : Dict Text (Option V)) (p : Text) (v : Option V) (items values : Dict Text (Option V))
      → lookup p own ≡ some v
      → lookup p values ≡ some v
      → lookup p (assign_own (some own) items values) ≡ some v
  assign_own_keeps own p v [] values e f = f
  assign_own_keeps own p v ((q, d) ∷ items) values e f =
      assign_own_keeps own p v items (insert q (own_value (some own) q d) values) e
        (ground (arith, lookup-insert q p (own_value (some own) q d) values, ==_iff q p))

  lookup-assign_own :
      (own : Dict Text (Option V)) (p : Text) (v d : Option V) (items values : Dict Text (Option V))
      → lookup p own ≡ some v
      → lookup p items ≡ some d
      → lookup p (assign_own (some own) items values) ≡ some v
  lookup-assign_own own p v d [] values e f = cc
  lookup-assign_own own p v d ((q, c) ∷ items) values e f =
      let values' : Dict Text (Option V) = insert q (own_value (some own) q c) values in
      elim (Bool-cases (q == p)) [
        | inl same ↦ assign_own_keeps own p v items values' e (
            ground
              (arith, lookup-insert q p (own_value (some own) q c) values, (==_iff q p).0 same))
        | inr differ ↦ lookup-assign_own own p v d items values' e (ground arith)
      ]

  lookup-write_defaults :
      (level : Level) (app : Text) (values : Dict Text (Option V)) (r : Registry V)
      (info : AppData V)
      → lookup app (at_level r level) ≡ some info
      → lookup app (at_level (write_defaults level app values r) level)
        ≡ some (record info { defaults = values })
  lookup-write_defaults level app values r info e =
      rw (e, write_defaults, at_level-with_level, lookup-insert_self)

  get_values_dict-eq :
      (guess app : Text) (r : Registry V) (m : Manager V) (info : AppData V)
      (own : Dict Text (Option V))
      → lookup app (at_level r m.level) ≡ some info
      → lookup app m.parameters ≡ some own
      → get_values_dict guess (some app) r m
        ≡ ok (
          assign_own (some own) info.defaults info.defaults,
          write_defaults m.level app (assign_own (some own) info.defaults info.defaults) r,
        )
  unfolding get_values_dict get_defaults
  get_values_dict-eq guess app r m info own e g = ground arith

  -- get_values_dict of a manager that has stored a declared parameter writes its values into the
  -- registry: afterwards another manager of the level that has stored nothing for the application
  -- shows the stored value as its own.
  pub get_values_dict_leaks :
      (guess app p : Text) (v d : Option V) (r r' : Registry V) (m m' : Manager V)
      (info : AppData V) (own values : Dict Text (Option V))
      → m.level ≡ m'.level
      → lookup app (at_level r m.level) ≡ some info
      → lookup p info.defaults ≡ some d
      → lookup app m.parameters ≡ some own
      → lookup p own ≡ some v
      → lookup app m'.parameters ≡ none
      → lower p ≡ p
      → get_values_dict guess (some app) r m ≡ ok (values, r')
      → get_value guess p (some app) true r' m' ≡ ok v
  get_values_dict_leaks guess app p v d r r' m m' info own values same e f g k none' low h =
      let w : r'
          ≡ write_defaults m.level app (assign_own (some own) info.defaults info.defaults) r =
        cc (get_values_dict-eq guess app r m info own e g) in
      rw (get_value-shown, low, none', ← same, w)
        (rw
          (lookup-write_defaults m.level app (assign_own (some own) info.defaults info.defaults) r
            info e)
          (rw (lookup-assign_own own p v d info.defaults info.defaults k f, shown)))
