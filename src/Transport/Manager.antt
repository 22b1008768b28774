-- ===== src/Transport/Manager.antt =====
-- `class TransportBackendManager` of modoboa/transport/backends.py. A backend class stands for the
-- instance that is made of it.
use mrt_post_office.Prelude.{
  Option, none, some, List, [], ◌∷◌, map, Text, if◌then◌else◌, ◌==◌, text_eq,
}
use mrt_post_office.Prelude.Chars.{text_ltb}
use mrt_post_office.Prelude.Dict.{Dict, lookup, insert}
use mrt_post_office.Prelude.Result.{Result, ok, err}
use mrt_post_office.Transport.Backend.{Setting, Backend}

pub data Error : Type 0 where
  missing_backend_name : Error

abbrev pub Manager : Type 0
Manager = Dict Text Backend

unfoldable pub get_backend : Text → Manager → Option Backend
get_backend name backends = lookup name backends

abbrev pub settings_of : Option Backend → Option (List Setting)
settings_of none = none
settings_of (some b) = some b.settings

unfoldable pub get_backend_settings : Text → Manager → Option (List Setting)
get_backend_settings name backends = settings_of (lookup name backends)

unfoldable pub get_all_backend_settings : Manager → Dict Text (List Setting)
get_all_backend_settings backends = map (λ (name, b). (name, b.settings)) backends

-- `sorted(..., key=lambda i: i[1])`
abbrev pub insert_sorted : Text → List (Text × Text) → List (Text × Text)
insert_sorted k [] = (k, k) ∷ []
insert_sorted k ((j, i) ∷ keys) =
    if text_ltb i k then (j, i) ∷ insert_sorted k keys else (k, k) ∷ (j, i) ∷ keys

unfoldable pub get_backend_list : Manager → List (Text × Text)
get_backend_list [] = []
get_backend_list ((k, _) ∷ backends) = insert_sorted k (get_backend_list backends)

unfoldable pub register_backend : Backend → Manager → Result Error Manager
register_backend b backends =
    if b.name == [] then err missing_backend_name else ok (insert b.name b backends)
