-- ===== src/Limits/Roles.antt =====
-- The setter of `User.role` in modoboa/core/models.py with the handlers of account_role_changed
-- (modoboa/limits/handlers.py, modoboa/admin/handlers.py) and account_deleted, the rows that a new
-- user or domain gets in modoboa/limits/handlers.py, and get_account_roles of
-- modoboa/lib/permissions.py.
use mrt_post_office.Prelude.{
  ℕ, ◌≡◌, refl, ◌≢◌, Bool, true, false, not, ◌&&◌, ◌||◌, Option, none, some, List, [], ◌∷◌, ◌++◌,
  Text, arith, if◌then◌else◌, ◌==◌, ==_iff, ==_ne, nat_eq, text_eq, any, Bool-cases, inl, inr,
}
use mrt_post_office.Prelude.Int.{ℤ, pos}
use mrt_post_office.Prelude.Chars.{codes, text_ltb}
use mrt_post_office.Prelude.Result.{Result, ok, err, ◌>>=◌}
use mrt_post_office.Permissions.Table.{Object, Table, key, key_eq, find}
use mrt_post_office.Permissions.Grant.{
  grant_access_to_object, grant_access_to_objects, get_object_owner,
}
use mrt_post_office.Permissions.Accounts.{User, role, can_access}
use mrt_post_office.Permissions.Access.{account_of, can_access-grant}
use mrt_post_office.Limits.World.{LimitName, limit_key, Limits, DomainLimitName}
use mrt_post_office.Limits.Handlers.{DomainLimits}
use mrt_post_office.Limits.Limit.{Error, multiple_objects, attribute_error}
use mrt_post_office.Limits.Pool.{move_pool_resource}

-- `User.objects.get(pk=...)` behind the owner's row
abbrev pub find_user : ℕ → List User → Option User
find_user pk [] = none
find_user pk (u ∷ users) = if u.pk == pk then some u else find_user pk users

-- the owner that resources go back to: a reseller that is no super user
abbrev pub reseller : Option User → Option User
reseller none = none
reseller (some owner) =
    if owner.is_superuser || not (role owner == codes "Resellers") then none else some owner

abbrev pub owner_of : ℕ → List User → Table → Result Error (Option User)
owner_of account users rows = elim (get_object_owner (account_of account) rows) [
  | ok (some pk) ↦ ok (find_user pk users)
  | ok none ↦ ok none
  | err _ ↦ err multiple_objects
]

abbrev pub move_to : Option User → ℕ → Limits → Result Error Limits
move_to none account limits = ok limits
move_to (some owner) account limits = move_pool_resource owner.pk account limits

-- the handler `move_pool_resource`
unfoldable pub account_role_changed : ℕ → Text → List User → Table → Limits → Result Error Limits
account_role_changed account new users rows limits = do
  owner ← owner_of account users rows
  if new == codes "DomainAdmins" || new == codes "Resellers"
      then ok limits
      else move_to (reseller owner) account limits

abbrev pub owner_there : Option User → Result Error User
owner_there none = err attribute_error
owner_there (some owner) = ok owner

-- the handler `move_resource`, which does not ask whether there is an owner
unfoldable pub account_deleted : ℕ → List User → Table → Limits → Result Error Limits
account_deleted account users rows limits = do
  found ← owner_of account users rows
  owner ← owner_there found
  move_to (reseller (some owner)) account limits

-- `create_user_limits`: the rows of a new user, from what the parameters say of each limit
unfoldable pub create_user_limits :
    List LimitName → ℕ → Option Bool → (LimitName → ℤ) → Limits → Limits
create_user_limits [] u creator default limits = limits
create_user_limits (name ∷ names) u creator default limits =
    create_user_limits names u creator default
      (limits ++ (limit_key u name, elim creator [ some false ↦ pos 0 | _ ↦ default name ]) ∷ [])

-- `create_domain_limits`
unfoldable pub create_domain_limits :
    List DomainLimitName → ℕ → (DomainLimitName → ℤ) → DomainLimits → DomainLimits
create_domain_limits [] d default limits = limits
create_domain_limits (name ∷ names) d default limits =
    create_domain_limits names d default (limits ++ (d, name, default name) ∷ [])

-- `ObjectAccess.objects.filter(user=self).delete()`
abbrev pub delete_user : ℕ → Table → Table
delete_user u [] = []
delete_user u (row ∷ rows) =
    if row.at_key.account == u then delete_user u rows else row ∷ delete_user u rows

-- `Group.objects.get(name=role)`, or the group of simple users
abbrev pub group_for : List Text → Text → Text
group_for groups new = if any (λ g. g == new) groups then new else codes "SimpleUsers"

abbrev pub with_role : List Text → Text → User → User
with_role groups new u = record u { is_superuser = false; groups = group_for groups new ∷ [] }

abbrev pub clear_accesses : Text → User → Table → Table
clear_accesses new u rows =
    if u.is_superuser || new == codes "SimpleUsers" then delete_user u.pk rows else rows

abbrev pub access_self : List ℕ → Text → User → Table → Table
access_self superusers new u rows =
    if not (new == codes "SimpleUsers") && not (can_access u (account_of u.pk) rows)
    then grant_access_to_object superusers u.pk (account_of u.pk) false rows
    else rows

abbrev pub change_role : List Text → List ℕ → Text → User → Table → User × Table
change_role groups superusers new u rows =
    if new == codes "SuperAdmins" then (record u { is_superuser = true; groups = [] }, rows) else (
      with_role groups new u,
      access_self superusers new (with_role groups new u) (clear_accesses new u rows),
    )

-- the handler `grant_access_to_all_objects`; `objects` are what its querysets give
unfoldable pub grant_access_to_all_objects : Text → ℕ → List Object → Table → Table
grant_access_to_all_objects new u objects rows =
    if not (new == codes "SuperAdmins") then rows else grant_access_to_objects u objects rows

-- The setter, with the names of all groups; nothing happens for the role that the user has.
unfoldable pub set_role :
    List Text
    → List ℕ
    → List User
    → List Object
    → Text
    → User
    → Table
    → Limits
    → Result Error (User × Table × Limits)
unfolding role account_role_changed grant_access_to_all_objects
set_role groups superusers users objects new u rows limits =
    if role u == new then ok (u, rows, limits) else do
      limits' ← account_role_changed u.pk new users rows limits
      let granted = grant_access_to_all_objects new u.pk objects rows
      let (u', rows') = change_role groups superusers new u granted
      ok (u', rows', limits')

find-delete_user : (u : ℕ) (o : Object) (rows : Table) → find (key u o) (delete_user u rows) ≡ none
find-delete_user u o [] = refl
find-delete_user u o (row ∷ rows) =
    ground (arith, find-delete_user u o rows, ==_iff row.at_key (key u o))

find-cleared :
    (b : Bool) (u : ℕ) (o : Object) (rows : Table)
    → find (key u o) (if b || true then delete_user u rows else rows) ≡ none
find-cleared true u o rows = find-delete_user u o rows
find-cleared false u o rows = find-delete_user u o rows

access_self-can_access :
    (superusers : List ℕ) (new : Text) (u : User) (rows : Table)
    → (new == codes "SimpleUsers") ≡ false
    → can_access u (account_of u.pk) (access_self superusers new u rows) ≡ true
access_self-can_access superusers new u rows e =
    elim (Bool-cases (can_access u (account_of u.pk) rows)) [
      | inl has ↦ rw (e, has) has
      | inr lacks ↦ rw (e, lacks) (can_access-grant u (account_of u.pk) false superusers rows)
    ]

set_role-eq :
    (groups : List Text) (superusers : List ℕ) (users : List User) (objects : List Object)
    (new : Text) (u u' : User) (rows rows' : Table) (limits limits' : Limits)
    → role u ≢ new
    → (new == codes "SuperAdmins") ≡ false
    → set_role groups superusers users objects new u rows limits ≡ ok (u', rows', limits')
    → (u' ≡ (change_role groups superusers new u rows).0)
      × (rows' ≡ (change_role groups superusers new u rows).1)
unfolding set_role grant_access_to_all_objects
set_role-eq groups superusers users objects new u u' rows rows' limits limits' ne not_super h =
    let differ = ==_ne (role u) new ne in ground arith

-- When the setter changes the role of a user to another than super administrator: a user that
-- becomes a simple user has no access left, not even as an owner; one that becomes anything else
-- can access itself.
pub set_role-accesses :
    (groups : List Text) (superusers : List ℕ) (users : List User) (objects : List Object)
    (new : Text) (u u' : User) (o : Object) (rows rows' : Table) (limits limits' : Limits)
    → role u ≢ new
    → new ≢ codes "SuperAdmins"
    → set_role groups superusers users objects new u rows limits ≡ ok (u', rows', limits')
    → (new ≡ codes "SimpleUsers" → find (key u.pk o) rows' ≡ none)
      × (new ≢ codes "SimpleUsers" → can_access u' (account_of u.pk) rows' ≡ true)
set_role-accesses groups superusers users objects new u u' o rows rows' limits limits' ne super h =
    let not_super = ==_ne new (codes "SuperAdmins") super in
    let (e, f) =
      set_role-eq groups superusers users objects new u u' rows rows' limits limits' ne not_super
        h in
    (
      λ simple. rw (f, simple) (find-cleared u.is_superuser u.pk o rows),
      λ other.
          rw (e, f, not_super)
            (access_self-can_access superusers new (with_role groups new u)
              (clear_accesses new u rows) (==_ne new (codes "SimpleUsers") other)),
    )

-- `sorted(result, key=lambda role: role[1])`: a role is its name and its label
abbrev pub insert_role : Text × Text → List (Text × Text) → List (Text × Text)
insert_role r [] = r ∷ []
insert_role r (s ∷ roles) = if text_ltb s.1 r.1 then s ∷ insert_role r roles else r ∷ s ∷ roles

abbrev pub sort_roles : List (Text × Text) → List (Text × Text)
sort_roles [] = []
sort_roles (r ∷ roles) = insert_role r (sort_roles roles)

abbrev pub is_some_answer : List Bool → Bool
is_some_answer [] = false
is_some_answer (_ ∷ _) = true

-- the label of each role, which is translated
module _ (label : Text → Text) where
  abbrev pub named : Text → Text × Text
  named name = (name, label name)

  -- `get_account_roles`, from what the receivers of user_can_set_role answer and from the permission
  -- `admin.add_domain`
  unfoldable pub get_account_roles : User → Option ℕ → Bool → List Bool → List (Text × Text)
  unfolding role
  get_account_roles u account may_add_domain answers =
      if elim account [ none ↦ false | some a ↦ a == u.pk ]
      then (role u, []) ∷ []
      else sort_roles (
          named (codes "SimpleUsers")
            ∷ (if may_add_domain && (not (is_some_answer answers) || any (λ a. a) answers)
                then named (codes "DomainAdmins") ∷ []
                else [])
          ++ (if u.is_superuser
              then named (codes "Resellers") ∷ named (codes "SuperAdmins") ∷ []
              else []))
