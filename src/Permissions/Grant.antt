-- ===== src/Permissions/Grant.antt =====
-- grant_access_to_object, grant_access_to_objects, ungrant_access_to_object,
-- ungrant_access_to_objects and get_object_owner of modoboa/lib/permissions.py. The list of super
-- users is what `User.objects.filter(is_superuser=True)` returns.
use mrt_post_office.Prelude.{
  ℕ, Bool, true, not, ◌||◌, Option, none, some, List, [], ◌∷◌, if◌then◌else◌, ◌==◌, nat_eq, ⊤,
}
use mrt_post_office.Prelude.Result.{Result, ok, err}
use mrt_post_office.Permissions.Table.{
  Object, key, Table, owners, delete, delete_object, save_owner, get_or_create,
}

-- `get` finds two rows; `[0]` of an empty result
pub data Error : Type 0 where
  multiple_objects_returned index_error : Error

-- the loop over the super users
unfoldable pub grant_to_superusers : List ℕ → ℕ → Object → Table → Table
grant_to_superusers [] u o rows = rows
grant_to_superusers (su ∷ superusers) u o rows =
    grant_to_superusers superusers u o (if su == u then rows else (get_or_create (key su o) rows).1)

unfoldable pub grant_access_to_object : List ℕ → ℕ → Object → Bool → Table → Table
unfolding get_or_create grant_to_superusers
grant_access_to_object superusers u o is_owner rows =
    let (created, rows1) = get_or_create (key u o) rows in
    let rows2 = save_owner (key u o) is_owner rows1 in
    if not created || not is_owner then rows2 else grant_to_superusers superusers u o rows2

unfoldable pub grant_access_to_objects : ℕ → List Object → Table → Table
unfolding get_or_create
grant_access_to_objects u [] rows = rows
grant_access_to_objects u (o ∷ objects) rows =
    grant_access_to_objects u objects (get_or_create (key u o) rows).1

-- an object that nobody owns goes to the first super user
abbrev pub give_owner : List ℕ → Object → List ℕ → Table → Result Error ⊤ × Table
give_owner superusers o (_ ∷ _ ∷ _) rows = (err multiple_objects_returned, rows)
give_owner superusers o (_ ∷ []) rows = (ok tt, rows)
give_owner [] o [] rows = (err index_error, rows)
give_owner (su ∷ superusers) o [] rows =
    (ok tt, grant_access_to_object (su ∷ superusers) su o true rows)

-- what was deleted before an exception stays deleted
unfoldable pub ungrant_access_to_object :
    List ℕ → Object → Option ℕ → Table → Result Error ⊤ × Table
unfolding grant_access_to_object
ungrant_access_to_object superusers o none rows = (ok tt, delete_object o rows)
ungrant_access_to_object superusers o (some u) rows =
    give_owner superusers o (owners o (delete (key u o) rows)) (delete (key u o) rows)

unfoldable pub ungrant_access_to_objects : List Object → Table → Table
ungrant_access_to_objects [] rows = rows
ungrant_access_to_objects (o ∷ objects) rows =
    ungrant_access_to_objects objects (delete_object o rows)

abbrev pub the_owner : List ℕ → Result Error (Option ℕ)
the_owner [] = ok none
the_owner (u ∷ []) = ok (some u)
the_owner (_ ∷ _ ∷ _) = err multiple_objects_returned

unfoldable pub get_object_owner : Object → Table → Result Error (Option ℕ)
get_object_owner o rows = the_owner (owners o rows)
