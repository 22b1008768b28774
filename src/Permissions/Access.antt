-- ===== src/Permissions/Access.antt =====
-- `User.can_access` decides a relation: to be a super user, to have a row, or to administrate the
-- account of somebody who owns the object.
use mrt_post_office.Prelude.{
  ℕ, ◌≡◌, Bool, true, false, ◌&&◌, none, some, List, [], ◌∷◌, arith, ◌==◌, ==_iff, ==_refl, is_some,
  nat_eq, Bool-cases, inl, inr,
}
use mrt_post_office.Permissions.Table.{
  Object, object_eq, user, content_type_eq, Key, key, key_eq, ObjectAccess, Table, find,
}
use mrt_post_office.Permissions.Grant.{grant_access_to_object, ungrant_access_to_object}
use mrt_post_office.Permissions.Accounts.{User, can_access, is_owner, owned_through}
use mrt_post_office.Permissions.Lookup.{find-grant_access_to_object, find-ungrant_all}

-- the account of a user, as an object
abbrev pub account_of : ℕ → Object
account_of v = record { content_type = user; object_id = v }

-- Why a user may access an object
pub data CanAccess (u : User) (o : Object) (rows : Table) : Type 0 where
  super : u.is_superuser ≡ true → CanAccess u o rows
  direct : is_some (find (key u.pk o) rows) ≡ true → CanAccess u o rows
  through :
      (v : ℕ)
      → (o.content_type == user) ≡ false
      → is_some (find (key u.pk (account_of v)) rows) ≡ true
      → find (key v o) rows ≡ some true
      → CanAccess u o rows

abbrev Through : ℕ → Object → Table → Table → Type 0
Through u o all rows =
    (v : ℕ) × (is_some (find (key u (account_of v)) rows) ≡ true) × (find (key v o) all ≡ some true)

is_owner_true :
    (v : ℕ) (o : Object) (rows : Table) → is_owner v o rows ≡ true → find (key v o) rows ≡ some true
unfolding is_owner
is_owner_true v o rows h = ground arith

abbrev matches : ℕ → Object → Table → ObjectAccess → Bool
matches u o all row =
    row.at_key.account == u
    && row.at_key.object.content_type == user
    && is_owner row.at_key.object.object_id o all

matching :
    (u : ℕ) (o : Object) (all : Table) (row : ObjectAccess)
    → matches u o all row ≡ true
    → (row.at_key ≡ key u (account_of row.at_key.object.object_id))
      × (is_owner row.at_key.object.object_id o all ≡ true)
matching u o all row h = ground (arith, ==_iff row.at_key.object.content_type user)

find-cons :
    (k : Key) (row : ObjectAccess) (rows : Table)
    → is_some (find k rows) ≡ true
    → is_some (find k (row ∷ rows)) ≡ true
find-cons k row rows h = ground arith

owned_through_sound :
    (u : ℕ) (o : Object) (all rows : Table)
    → owned_through u o all rows ≡ true
    → Through u o all rows
owned_through_sound u o all [] h = cc
owned_through_sound u o all (row ∷ rows) h = elim (Bool-cases (matches u o all row)) [
  | inl e ↦
      let (same, owner) = matching u o all row e in
      let v : ℕ = row.at_key.object.object_id in
      (v, ground (arith, ==_iff row.at_key (key u (account_of v))), is_owner_true v o all owner)
  | inr e ↦
      let (v, a, b) = owned_through_sound u o all rows (ground arith) in
      (v, find-cons (key u (account_of v)) row rows a, b)
]

owned_through_complete :
    (u v : ℕ) (o : Object) (all rows : Table)
    → is_some (find (key u (account_of v)) rows) ≡ true
    → find (key v o) all ≡ some true
    → owned_through u o all rows ≡ true
unfolding is_owner
owned_through_complete u v o all [] h k = cc
owned_through_complete u v o all (row ∷ rows) h k =
    elim (Bool-cases (row.at_key == key u (account_of v))) [
      | inl same ↦ ground (arith, (==_iff row.at_key (key u (account_of v))).0 same)
      | inr differ ↦ ground (arith, owned_through_complete u v o all rows)
    ]

-- can_access says yes only with a reason: the user is a super user, has a row for the object, or
-- has access to another account that owns the object, which is itself no account.
pub can_access_sound :
    (u : User) (o : Object) (rows : Table) → can_access u o rows ≡ true → CanAccess u o rows
unfolding can_access
can_access_sound u o rows h = elim (Bool-cases u.is_superuser) [
  | inl s ↦ super s
  | inr s ↦ elim (Bool-cases (is_some (find (key u.pk o) rows))) [
    | inl d ↦ direct d
    | inr d ↦ elim (Bool-cases (o.content_type == user)) [
      | inl t ↦ absurd (ground arith)
      | inr t ↦
          let (v, a, b) = owned_through_sound u.pk o rows rows (ground arith) in through v t a b
    ]
  ]
]

-- can_access says yes wherever there is a reason.
pub can_access_complete :
    (u : User) (o : Object) (rows : Table) → CanAccess u o rows → can_access u o rows ≡ true
unfolding can_access
can_access_complete u o rows (super s) = rw s
can_access_complete u o rows (direct d) = ground arith
can_access_complete u o rows (through v t a b) =
    ground (arith, owned_through_complete u.pk v o rows rows a b)

CanAccess-ungranted :
    (u : User) (o : Object) (superusers : List ℕ) (rows : Table)
    → u.is_superuser ≡ false
    → CanAccess u o (ungrant_access_to_object superusers o none rows).1
    → ⊥
CanAccess-ungranted u o sus rows s (super t) = cc
CanAccess-ungranted u o sus rows s (direct d) =
    let e = find-ungrant_all sus o rows (key u.pk o) in ground (arith, e, ==_refl o)
CanAccess-ungranted u o sus rows s (through v t a b) =
    let e = find-ungrant_all sus o rows (key v o) in ground (arith, e, ==_refl o)

-- Once all access to an object is taken away, no user but a super user can access it, not even
-- through other users.
pub can_access-ungrant_all :
    (u : User) (o : Object) (superusers : List ℕ) (rows : Table)
    → u.is_superuser ≡ false
    → can_access u o (ungrant_access_to_object superusers o none rows).1 ≡ false
can_access-ungrant_all u o superusers rows s =
    let rows' : Table = (ungrant_access_to_object superusers o none rows).1 in
    elim (Bool-cases (can_access u o rows')) [
      | inl e ↦ absurd (CanAccess-ungranted u o superusers rows s (can_access_sound u o rows' e))
      | inr e ↦ e
    ]

-- A user that was granted access to an object, as its owner or not, can access it.
pub can_access-grant :
    (u : User) (o : Object) (flag : Bool) (superusers : List ℕ) (rows : Table)
    → can_access u o (grant_access_to_object superusers u.pk o flag rows) ≡ true
can_access-grant u o flag superusers rows =
    let rows' : Table = grant_access_to_object superusers u.pk o flag rows in
    can_access_complete u o rows' (
      direct (
        ground (
          arith,
          find-grant_access_to_object superusers u.pk o flag rows (key u.pk o),
          ==_refl (key u.pk o),
        )))
