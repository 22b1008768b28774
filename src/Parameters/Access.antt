-- ===== src/Parameters/Access.antt =====
-- What the setters and getters of a parameter manager promise each other.
use mrt_post_office.Prelude.{
  ◌≡◌, refl, ap, ◌≢◌, Bool, true, false, Option, none, some, List, [], ◌∷◌, Text, arith, ◌==◌,
  text_eq, ==_iff, ==_ne, ◌⊎◌, Bool-cases, inl, inr,
}
use mrt_post_office.Prelude.Dict.{Dict, lookup, insert, lookup-insert, lookup-insert_self}
use mrt_post_office.Prelude.Chars.{lower}
use mrt_post_office.Prelude.Result.{Result, ok, err, or_raise}
use mrt_post_office.Parameters.Registry.{
  Error, not_defined, AppData, Registry, at_level, exists, get_default, get_defaults,
}
use mrt_post_office.Parameters.Manager.{
  Manager, resolve, own_value, own_values, or_none, get_value, get_values, materialize, set_value,
}

abbrev pub is_ok {ℓ} : {A : Type ℓ} → Result Error A → Bool
is_ok (ok _) = true
is_ok (err _) = false

module _ {V : Type 0} where
  -- The value that a manager with these own values shows, by the application's record
  abbrev pub shown :
      Text → Text → Option (AppData V) → Option (Dict Text (Option V)) → Result Error (Option V)
  shown app p none own = err (not_defined app none)
  shown app p (some info) own = elim (lookup p info.defaults) [
    | none ↦ err (not_defined app none)
    | some default ↦ ok (own_value own p default)
  ]

  pub get_value-shown :
      (guess p : Text) (app : Option Text) (raise : Bool) (r : Registry V) (m : Manager V)
      → get_value guess p app raise r m
        ≡ or_none raise (
            shown
              (resolve guess app)
              (lower p)
              (lookup (resolve guess app) (at_level r m.level))
              (lookup (resolve guess app) m.parameters))
  unfolding get_value get_default
  get_value-shown guess p app raise r m = ground arith

  -- the manager after a successful `set_value`
  abbrev stored : Text → Text → Option V → Dict Text (Option V) → Manager V → Manager V
  stored app p value defaults m = record m {
    parameters = insert app (insert p value (materialize app defaults m.parameters)) m.parameters;
  }

  set_value_inv :
      (guess p : Text) (value : Option V) (app : Option Text) (r : Registry V) (m : Manager V)
      {m' : Manager V}
      → p ≢ []
      → set_value guess p value app r m ≡ ok m'
      → (info : AppData V) × (default : Option V) × (lookup (resolve guess app) (at_level r m.level)
          ≡ some info)
        × (lookup p info.defaults ≡ some default)
        × (m' ≡ stored (resolve guess app) p value info.defaults m)
  unfolding set_value exists get_defaults
  set_value_inv guess [] value app r m ne h = absurd (ne refl)
  set_value_inv guess (c ∷ p) value app r m ne h = ground arith

  shown-stored_self :
      (app p : Text) (value : Option V) (info : AppData V) (default : Option V) (m : Manager V)
      → lookup p info.defaults ≡ some default
      → shown app p (some info) (lookup app (stored app p value info.defaults m).parameters)
        ≡ ok value
  shown-stored_self app p value info default m f =
      rw lookup-insert_self
        (ground (arith, lookup-insert_self p value (materialize app info.defaults m.parameters)))

  -- a name that was not written shows what it showed, also through defaults that became stored
  shown-stored_ne :
      (app p q : Text) (value : Option V) (info : AppData V) (m : Manager V)
      → p ≢ q
      → shown app q (some info) (lookup app (stored app p value info.defaults m).parameters)
        ≡ shown app q (some info) (lookup app m.parameters)
  shown-stored_ne app p q value info m other = rw lookup-insert_self (
      ground
        (arith, ==_iff p q, lookup-insert p q value (materialize app info.defaults m.parameters)))

  -- A parameter with a non-empty lower-case name that was set without an error has the value that
  -- was set.
  pub get_value-set_value_self :
      (guess p : Text) (value : Option V) (app : Option Text) (raise : Bool) (r : Registry V)
      (m : Manager V) {m' : Manager V}
      → p ≢ []
      → lower p ≡ p
      → set_value guess p value app r m ≡ ok m'
      → get_value guess p app raise r m' ≡ ok value
  get_value-set_value_self guess p value app raise r m ne low h =
      let (info, default, e, f, g) = set_value_inv guess p value app r m ne h in
      rw (get_value-shown, low, g, e)
        (ap (or_none raise) (shown-stored_self _ p value info default m f))

  -- Setting a parameter with a non-empty name changes what the manager shows of no other
  -- parameter, also where it makes the defaults of the application part of the stored values.
  pub get_value-set_value_ne :
      (guess p q : Text) (value : Option V) (app app' : Option Text) (raise : Bool) (r : Registry V)
      (m : Manager V) {m' : Manager V}
      → p ≢ []
      → (resolve guess app ≢ resolve guess app') ⊎ (p ≢ lower q)
      → set_value guess p value app r m ≡ ok m'
      → get_value guess q app' raise r m' ≡ get_value guess q app' raise r m
  get_value-set_value_ne guess p q value app app' raise r m ne (inl other) h =
      let (info, default, e, f, g) = set_value_inv guess p value app r m ne h in
      rw (get_value-shown, g) (simp (get_value-shown, lookup-insert, ==_ne _ _ other))
  get_value-set_value_ne guess p q value app app' raise r m {m' = m'} ne (inr other) h =
      let (info, default, e, f, g) = set_value_inv guess p value app r m ne h in
      elim (Bool-cases (resolve guess app == resolve guess app')) [
        | inl same ↦
            rw (get_value-shown guess q app' raise r m, g)
              (rw (get_value-shown, ← ((==_iff (resolve guess app) (resolve guess app')).0 same), e)
                (ap (or_none raise)
                  (shown-stored_ne (resolve guess app) p (lower q) value info m other)))
        | inr differ ↦ rw (get_value-shown, g) (simp (get_value-shown, lookup-insert, differ))
      ]

  -- set_value succeeds exactly for the parameters for which exists says yes.
  pub set_value-exists :
      (guess p : Text) (value : Option V) (app : Option Text) (r : Registry V) (m : Manager V)
      → is_ok (set_value guess p value app r m) ≡ exists m.level (resolve guess app) (some p) r
  unfolding set_value exists get_defaults
  set_value-exists guess [] value app r m = ground arith
  set_value-exists guess (c ∷ p) value app r m = ground arith

  lookup-own_values :
      (own : Option (Dict Text (Option V))) (p : Text) (values : Dict Text (Option V))
      → lookup p (own_values own values)
        ≡ elim (lookup p values) [ none ↦ none | some d ↦ some (own_value own p d) ]
  lookup-own_values own p [] = refl
  lookup-own_values own p ((q, d) ∷ values) =
      ground (arith, ==_iff q p, lookup-own_values own p values)

  get_values_inv :
      (guess : Text) (app : Option Text) (r : Registry V) (m : Manager V)
      {values : List (Text × Option V)}
      → get_values guess app r m ≡ ok values
      → (info : AppData V) × (lookup (resolve guess app) (at_level r m.level) ≡ some info)
        × (values ≡ own_values (lookup (resolve guess app) m.parameters) info.defaults)
  unfolding get_values get_defaults
  get_values_inv guess app r m h = ground arith

  shown-own_values :
      (app p : Text) (info : AppData V) (own : Option (Dict Text (Option V)))
      → or_none true (shown app p (some info) own)
        ≡ or_raise (lookup p (own_values own info.defaults)) (not_defined app none)
  shown-own_values app p info own = ground (arith, lookup-own_values own p info.defaults)

  -- For a lower-case name, what get_values lists for it is what get_value returns for it, and a
  -- name that it does not list is not defined.
  pub get_values-get_value :
      (guess p : Text) (app : Option Text) (r : Registry V) (m : Manager V)
      {values : List (Text × Option V)}
      → lower p ≡ p
      → get_values guess app r m ≡ ok values
      → get_value guess p app true r m
        ≡ or_raise (lookup p values) (not_defined (resolve guess app) none)
  get_values-get_value guess p app r m low h =
      let (info, e, f) = get_values_inv guess app r m h in
      rw (get_value-shown, low, f, e)
        (shown-own_values (resolve guess app) p info (lookup (resolve guess app) m.parameters))
