-- ===== src/Parameters/Tests.antt =====
-- One application with one parameter, and managers with and without a stored value.
use mrt_post_office.Prelude.{ℕ, ◌≡◌, refl, true, false, Option, none, some, [], ◌∷◌, Text, inr}
use mrt_post_office.Prelude.Chars.{codes, lower}
use mrt_post_office.Prelude.Result.{ok}
use mrt_post_office.Parameters.Registry.{
  user, Field, AppData, Registry, empty, add, load_default_values, get_defaults, exists,
}
use mrt_post_office.Parameters.Manager.{Manager, get_value, get_values_dict, set_value}
use mrt_post_office.Parameters.Access.{get_value-set_value_self, get_value-set_value_ne}
use mrt_post_office.Parameters.Defaults.{get_values_dict_leaks}

abbrev app : Text
app = codes "core"

abbrev size : Text
size = codes "size"

abbrev field : Field ℕ
field = record { default = some (some 5); class_name = codes "IntegerField"; choices = [] }

abbrev info : Option ℕ → AppData ℕ
info default = record {
  label = codes "General";
  structure = [];
  fields = (size, field) ∷ [];
  is_extension = false;
  defaults = (size, default) ∷ [];
}

abbrev registry : Option ℕ → Registry ℕ
registry default = record { global_apps = []; user_apps = (app, info default) ∷ [] }

-- what `add` and the loading of the defaults make
loaded :
    load_default_values user (add user app (codes "General") [] ((size, field) ∷ []) false empty)
    ≡ registry (some 5)
unfolding load_default_values add
loaded = refl

abbrev fresh : Manager ℕ
fresh = record { level = user; parameters = [] }

abbrev stored : Option ℕ → Manager ℕ
stored value = record { level = user; parameters = (app, (size, value) ∷ []) ∷ [] }

set_9 : set_value app size (some 9) none (registry (some 5)) fresh ≡ ok (stored (some 9))
unfolding set_value exists get_defaults
set_9 = refl

get_value-set_value_self_example :
    get_value app size none true (registry (some 5)) (stored (some 9)) ≡ ok (some 9)
get_value-set_value_self_example =
    get_value-set_value_self app size (some 9) none true (registry (some 5)) fresh (λ e. cc)
      (unfold lower in refl) set_9

get_value-set_value_ne_example :
    get_value app (codes "other") none false (registry (some 5)) (stored (some 9))
    ≡ get_value app (codes "other") none false (registry (some 5)) fresh
unfolding lower
get_value-set_value_ne_example =
    get_value-set_value_ne app size (codes "other") (some 9) none none false (registry (some 5))
      fresh (λ e. cc) (inr (λ e. cc)) set_9

get_values_dict_leaks_example :
    get_value app size (some app) true (registry (some 9)) fresh ≡ ok (some 9)
get_values_dict_leaks_example =
    get_values_dict_leaks app app size (some 9) (some 5) (registry (some 5)) (registry (some 9))
      (stored (some 9)) fresh (info (some 5)) ((size, some 9) ∷ []) ((size, some 9) ∷ []) refl refl
      refl refl refl refl (unfold lower in refl) (unfold get_values_dict get_defaults in refl)
