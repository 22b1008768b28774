-- ===== src/Extensions/Pool.antt =====
-- `class ExtensionsPool` of modoboa/core/extensions.py. Instances of a class differ by the number
-- under which they were made, so that a second instance can be told from the first.
use mrt_post_office.Prelude.{
  ℕ, suc, Bool, true, false, Option, none, some, List, [], ◌∷◌, ◌++◌, Text, if◌then◌else◌, text_eq,
}
use mrt_post_office.Prelude.Chars.{text_ltb}
use mrt_post_office.Prelude.Dict.{Dict, lookup, insert}
use mrt_post_office.Extensions.Extension.{Extension, Infos, infos, Manifest, get_frontend_manifest}

pub record Instance : Type 0 where
  pub of_class : Extension
  pub serial : ℕ

-- `{"cls": ext, "show": show}`, with `"instance"` once there is one
pub record Entry : Type 0 where
  pub cls : Extension
  pub show : Bool
  pub made : Option Instance

pub record Pool : Type 0 where
  pub extensions : Dict Text Entry
  pub next_serial : ℕ

-- `ExtensionsPool.__init__`
abbrev pub empty_pool : Pool
empty_pool = record { extensions = []; next_serial = 0 }

unfoldable pub register_extension : Extension → Bool → Pool → Pool
register_extension e show p = record p {
  extensions = insert e.name (record { cls = e; show = show; made = none }) p.extensions;
}

-- the instance that is there, or a new one, which is kept
abbrev pub instance_of : Text → Entry → Option Instance → Pool → Instance × Pool
instance_of name entry (some i) p = (i, p)
instance_of name entry none p =
    let i : Instance = record { of_class = entry.cls; serial = p.next_serial } in
    (
      i,
      record {
        extensions = insert name (record entry { made = some i }) p.extensions;
        next_serial = suc p.next_serial;
      },
    )

abbrev pub get_entry : Text → Option Entry → Pool → Option Instance × Pool
get_entry name none p = (none, p)
get_entry name (some entry) p = let (i, p') = instance_of name entry entry.made p in (some i, p')

unfoldable pub get_extension : Text → Pool → Option Instance × Pool
get_extension name p = get_entry name (lookup name p.extensions) p

abbrev pub infos_of : Option Instance → Option Infos
infos_of none = none
infos_of (some i) = some (infos i.of_class)

unfoldable pub get_extension_infos : Text → Pool → Option Infos × Pool
unfolding get_extension infos
get_extension_infos name p = let (i, p') = get_extension name p in (infos_of i, p')

abbrev pub apps_of : Option Instance → List Text
apps_of none = []
apps_of (some i) = i.of_class.available_apps

abbrev pub names : Dict Text Entry → List Text
names [] = []
names ((name, _) ∷ extensions) = name ∷ names extensions

abbrev pub collect_apps : List Text → Pool → List Text × Pool
collect_apps [] p = ([], p)
collect_apps (name ∷ rest) p =
    let (i, p1) = get_extension name p in
    let (apps, p2) = collect_apps rest p1 in (apps_of i ++ apps, p2)

unfoldable pub get_available_apps : Pool → List Text × Pool
get_available_apps p = collect_apps (names p.extensions) p

abbrev pub manifests_of : (Text → Text) → Option Instance → List Manifest → List Manifest
manifests_of static none manifests = manifests
manifests_of static (some i) manifests = get_frontend_manifest static i.of_class ∷ manifests

abbrev pub collect_manifests : (Text → Text) → List Text → Pool → List Manifest × Pool
collect_manifests static [] p = ([], p)
collect_manifests static (name ∷ rest) p =
    let (i, p1) = get_extension name p in
    let (manifests, p2) = collect_manifests static rest p1 in (manifests_of static i manifests, p2)

unfoldable pub get_frontend_manifests : (Text → Text) → Pool → List Manifest × Pool
get_frontend_manifests static p = collect_manifests static (names p.extensions) p

-- `infos["id"] = extname`
abbrev pub with_id : Text → Option Infos → List (Text × Infos) → List (Text × Infos)
with_id name none listed = listed
with_id name (some i) listed = (name, i) ∷ listed

-- `if not extdef["show"]: continue`
abbrev pub infos_if_shown : Bool → Text → Pool → Option Infos × Pool
infos_if_shown true name p = get_extension_infos name p
infos_if_shown false name p = (none, p)

abbrev pub collect_shown : Dict Text Entry → Pool → List (Text × Infos) × Pool
collect_shown [] p = ([], p)
collect_shown ((name, entry) ∷ entries) p =
    let (i, p1) = infos_if_shown entry.show name p in
    let (listed, p2) = collect_shown entries p1 in (with_id name i listed, p2)

-- `sorted(result, key=lambda i: i["name"])`, which is stable
abbrev pub insert_by_name : Text × Infos → List (Text × Infos) → List (Text × Infos)
insert_by_name i [] = i ∷ []
insert_by_name i (j ∷ listed) =
    if text_ltb j.1.name i.1.name then j ∷ insert_by_name i listed else i ∷ j ∷ listed

abbrev pub sort_by_name : List (Text × Infos) → List (Text × Infos)
sort_by_name [] = []
sort_by_name (i ∷ listed) = insert_by_name i (sort_by_name listed)

unfoldable pub list_all : Pool → List (Text × Infos) × Pool
list_all p = let (listed, p') = collect_shown p.extensions p in (sort_by_name listed, p')
