-- ===== src/Permissions/Tests.antt =====
-- A small table of accesses: a super user, a reseller that owns an account and a domain.
use mrt_post_office.Prelude.{◌≡◌, refl, ◌≤◌, true, false, none, some, [], ◌∷◌, length}
use mrt_post_office.Prelude.Chars.{codes}
use mrt_post_office.Permissions.Table.{
  domain, Object, key, Table, find, owners, same_object, same_key,
}
use mrt_post_office.Permissions.Grant.{grant_access_to_object, ungrant_access_to_object}
use mrt_post_office.Permissions.Accounts.{User, can_access}
use mrt_post_office.Permissions.Lookup.{find-ungrant_all}
use mrt_post_office.Permissions.Access.{
  CanAccess, through, account_of, can_access_sound, can_access_complete, can_access-ungrant_all,
  can_access-grant,
}
use mrt_post_office.Permissions.Ownership.{ungrant_access_to_object-owners}

abbrev admin : User
admin = record { pk = 2; is_superuser = false; groups = codes "Resellers" ∷ [] }

abbrev site : Object
site = record { content_type = domain; object_id = 7 }

-- user 2 administers user 3, who owns the domain 7
abbrev table : Table
table =
    record { at_key = key 2 (account_of 3); is_owner = true }
    ∷ record { at_key = key 3 site; is_owner = true }
    ∷ []

find-ungrant_all_example :
    find (key 3 site) (ungrant_access_to_object (1 ∷ []) site none table).1 ≡ none
unfolding same_object same_key
find-ungrant_all_example = find-ungrant_all (1 ∷ []) site table (key 3 site)

site_through_account : CanAccess admin site table
unfolding same_object same_key
site_through_account = through 3 refl refl refl

can_access_complete_example : can_access admin site table ≡ true
can_access_complete_example = can_access_complete admin site table site_through_account

can_access_sound_example : CanAccess admin site table
can_access_sound_example = can_access_sound admin site table can_access_complete_example

can_access-ungrant_all_example :
    can_access admin site (ungrant_access_to_object (1 ∷ []) site none table).1 ≡ false
can_access-ungrant_all_example = can_access-ungrant_all admin site (1 ∷ []) table refl

can_access-grant_example :
    can_access admin site (grant_access_to_object (1 ∷ []) admin.pk site false table) ≡ true
can_access-grant_example = can_access-grant admin site false (1 ∷ []) table

-- Taking the domain from its only owner
ungrant_access_to_object-owners_example :
    1 ≤ length (owners site (ungrant_access_to_object (1 ∷ []) site (some 3) table).1)
ungrant_access_to_object-owners_example =
    ungrant_access_to_object-owners 1 [] site 3 table
      (unfold ungrant_access_to_object same_object same_key in refl)
