-- ===== src/Extensions/Extension.antt =====
-- `class ModoExtension` of modoboa/core/extensions.py: the attributes of a class, and the
-- descriptions made of them. A menu entry, a route or a descriptor is a dictionary of texts.
use mrt_post_office.Prelude.{Bool, Option, none, some, List, [], ◌∷◌, Text, text_eq, get_or}
use mrt_post_office.Prelude.Chars.{codes}
use mrt_post_office.Prelude.Dict.{Dict, lookup, insert, erase}

abbrev pub Descriptor : Type 0
Descriptor = Dict Text Text

pub record Extension : Type 0 where
  pub name : Text
  pub label : Text
  pub version : Text
  pub description : Text
  pub always_active : Bool
  pub url : Option Text
  pub topredirection_url : Option Text
  pub available_apps : List Text
  pub frontend_menu_entries : List Descriptor
  pub frontend_routes : List Descriptor
  pub frontend_remote : Option Descriptor
  pub frontend_ui_extensions : Dict Text (List Descriptor)

pub record Infos : Type 0 where
  pub name : Text
  pub label : Text
  pub version : Text
  pub description : Text
  pub url : Text
  pub topredirection_url : Option Text
  pub always_active : Bool

pub record Manifest : Type 0 where
  pub name : Text
  pub label : Text
  pub remote : Option Descriptor
  pub menu_entries : List Descriptor
  pub routes : List Descriptor
  pub ui_extensions : Dict Text (List Descriptor)

unfoldable pub get_url : Extension → Text
get_url e = get_or e.url e.name

unfoldable pub infos : Extension → Infos
unfolding get_url
infos e = record {
  name = e.name;
  label = e.label;
  version = e.version;
  description = e.description;
  url = get_url e;
  topredirection_url = e.topredirection_url;
  always_active = e.always_active;
}

-- `remote.get("url")` is there and not empty; `static_path` likewise
abbrev pub given : Option Text → Option Text
given none = none
given (some []) = none
given (some (c ∷ s)) = some (c ∷ s)

-- `static` is Django's
abbrev pub resolve_url : (Text → Text) → Option Text → Option Text → Descriptor → Descriptor
resolve_url static (some url) path remote = remote
resolve_url static none none remote = remote
resolve_url static none (some path) remote = insert (codes "url") (static path) remote

unfoldable pub get_frontend_remote : (Text → Text) → Option Descriptor → Option Descriptor
get_frontend_remote static none = none
get_frontend_remote static (some []) = none
get_frontend_remote static (some (d ∷ ds)) =
    let remote = erase (codes "static_path") (d ∷ ds) in
    some (
      resolve_url static (given (lookup (codes "url") remote))
        (given (lookup (codes "static_path") (d ∷ ds))) remote)

unfoldable pub get_frontend_manifest : (Text → Text) → Extension → Manifest
unfolding get_frontend_remote
get_frontend_manifest static e = record {
  name = e.name;
  label = e.label;
  remote = get_frontend_remote static e.frontend_remote;
  menu_entries = e.frontend_menu_entries;
  routes = e.frontend_routes;
  ui_extensions = e.frontend_ui_extensions;
}
