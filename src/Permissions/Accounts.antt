-- ===== src/Permissions/Accounts.antt =====
-- `User.role`, `User.is_owner` and `User.can_access` of modoboa/core/models.py, and the permission
-- classes of modoboa/lib/permissions.py.
use mrt_post_office.Prelude.{
  ℕ, Bool, true, false, not, ◌&&◌, ◌||◌, List, [], ◌∷◌, Text, if◌then◌else◌, is_some, get_or, ◌==◌,
  nat_eq, text_eq,
}
use mrt_post_office.Prelude.Chars.{codes}
use mrt_post_office.Permissions.Table.{Object, key, Table, user, content_type_eq, find}

pub record User : Type 0 where
  pub pk : ℕ
  pub is_superuser : Bool
  pub groups : List Text

-- the name of the first group, `"---"` without one
unfoldable pub role : User → Text
role u =
    if u.is_superuser
    then codes "SuperAdmins"
    else elim u.groups [ [] ↦ codes "---" | group ∷ _ ↦ group ]

-- `User.is_owner`, of the user with this key
unfoldable pub is_owner : ℕ → Object → Table → Bool
is_owner u o rows = get_or (find (key u o) rows) false

-- one of the users that `u` has access to owns the object
abbrev pub owned_through : ℕ → Object → Table → Table → Bool
owned_through u o all [] = false
owned_through u o all (row ∷ rows) =
    (row.at_key.account == u
      && row.at_key.object.content_type == user
      && is_owner row.at_key.object.object_id o all)
    || owned_through u o all rows

unfoldable pub can_access : User → Object → Table → Bool
unfolding is_owner
can_access u o rows =
    if u.is_superuser
    then true
    else if is_some (find (key u.pk o) rows)
    then true
    else if o.content_type == user
    then false
    else owned_through u.pk o rows rows

-- `IsSuperUser` and `IsPrivilegedUser`
unfoldable pub is_super_user : User → Bool
is_super_user u = u.is_superuser

unfoldable pub is_privileged_user : User → Bool
unfolding role
is_privileged_user u = not (role u == codes "SimpleUsers")
