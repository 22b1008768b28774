-- ===== src/Permissions/Lookup.antt =====
-- Who has access to an object after each operation on the table, for every user and object.
use mrt_post_office.Prelude.{
  ℕ, ◌≡◌, refl, Bool, false, not, ◌&&◌, Option, none, some, List, [], ◌∷◌, ◌++◌, arith,
  if◌then◌else◌, ◌==◌, nat_eq, ==_iff, ==_refl, is_some, get_or, any, Bool-cases, inl, inr,
}
use mrt_post_office.Permissions.Table.{
  Object, object_eq, Key, key, same_key, key_eq, ObjectAccess, Table, find, delete, delete_object,
  save_owner, get_or_create,
}
use mrt_post_office.Permissions.Grant.{
  grant_to_superusers, grant_access_to_object, grant_access_to_objects, ungrant_access_to_object,
  ungrant_access_to_objects,
}

pub find-append :
    (k : Key) (rows : Table) (row : ObjectAccess)
    → find k (rows ++ row ∷ []) ≡ elim (find k rows) [
      | some flag ↦ some flag
      | none ↦ if row.at_key == k then some row.is_owner else none
    ]
find-append k [] row = refl
find-append k (r ∷ rows) row = ground (arith, find-append k rows row)

pub find-get_or_create :
    (k j : Key) (rows : Table)
    → find j (get_or_create k rows).1
      ≡ (if k == j then some (get_or (find k rows) false) else find j rows)
unfolding get_or_create
find-get_or_create k j rows =
    ground (arith, find-append j rows (record { at_key = k; is_owner = false }), ==_iff k j)

pub find-save_owner :
    (k j : Key) (flag : Bool) (rows : Table)
    → find j (save_owner k flag rows)
      ≡ (if k == j && is_some (find k rows) then some flag else find j rows)
find-save_owner k j flag [] = ground arith
find-save_owner k j flag (r ∷ rows) =
    ground (arith, find-save_owner k j flag rows, ==_iff k j, ==_iff r.at_key k, ==_iff r.at_key j)

pub find-delete :
    (k j : Key) (rows : Table) → find j (delete k rows) ≡ (if k == j then none else find j rows)
find-delete k j [] = ground arith
find-delete k j (r ∷ rows) =
    ground (arith, find-delete k j rows, ==_iff k j, ==_iff r.at_key k, ==_iff r.at_key j)

pub find-delete_object :
    (o : Object) (j : Key) (rows : Table)
    → find j (delete_object o rows) ≡ (if o == j.object then none else find j rows)
find-delete_object o j [] = ground arith
find-delete_object o j (r ∷ rows) = ground (
  arith,
  find-delete_object o j rows,
  ==_iff o j.object,
  ==_iff r.at_key j,
  ==_iff r.at_key.object o,
)

abbrev pub is_in : ℕ → List ℕ → Bool
is_in v users = any (λ w. w == v) users

-- the rows that the loop over the super users creates
abbrev pub is_created : List ℕ → ℕ → Object → Key → Bool
is_created superusers u o j = o == j.object && (not (u == j.account) && is_in j.account superusers)

pub key_parts : (u : ℕ) (o : Object) (j : Key) → (key u o == j) ≡ (u == j.account && o == j.object)
unfolding same_key
key_parts u o j = refl

find-grant_to_superusers :
    (superusers : List ℕ) (u : ℕ) (o : Object) (j : Key) (rows : Table)
    → find j (grant_to_superusers superusers u o rows)
      ≡ (if is_created superusers u o j then some (get_or (find j rows) false) else find j rows)
unfolding grant_to_superusers
find-grant_to_superusers [] u o j rows = ground arith
find-grant_to_superusers (su ∷ superusers) u o j rows = elim (Bool-cases (su == u)) [
  | inl same ↦ rw (same, find-grant_to_superusers superusers u o j rows) (ground arith)
  | inr differ ↦
      rw
        (
          differ,
          find-grant_to_superusers superusers u o j (get_or_create (key su o) rows).1,
          find-get_or_create (key su o) j rows,
        )
        (ground (arith, ==_iff (key su o) j, key_parts su o j))
]

-- the rows of an object after a grant: the flag that was given for the user, a row for each super
-- user where the user is a new owner, and otherwise what was there
abbrev pub granted : List ℕ → ℕ → Object → Bool → Table → Key → Option Bool
granted superusers u o flag rows j =
    if key u o == j
    then some flag
    else if flag && (not (is_some (find (key u o) rows)) && is_created superusers u o j)
    then some (get_or (find j rows) false)
    else find j rows

created_flag : (k : Key) (rows : Table) → (get_or_create k rows).0 ≡ not (is_some (find k rows))
unfolding get_or_create
created_flag k rows = ground arith

find-saved :
    (k j : Key) (flag : Bool) (rows : Table)
    → find j (save_owner k flag (get_or_create k rows).1)
      ≡ (if k == j then some flag else find j rows)
find-saved k j flag rows =
    rw
      (
        find-save_owner k j flag (get_or_create k rows).1,
        find-get_or_create k k rows,
        find-get_or_create k j rows,
        ==_refl,
      )
      (ground arith)

-- grant_access_to_object gives the user a row with the flag; only where that row is new and makes
-- the user the owner does it give the super users rows too; every other row is as it was.
pub find-grant_access_to_object :
    (superusers : List ℕ) (u : ℕ) (o : Object) (flag : Bool) (rows : Table) (j : Key)
    → find j (grant_access_to_object superusers u o flag rows) ≡ granted superusers u o flag rows j
unfolding grant_access_to_object
find-grant_access_to_object superusers u o flag rows j =
    let saved : Table = save_owner (key u o) flag (get_or_create (key u o) rows).1 in
    ground (
      arith,
      created_flag (key u o) rows,
      find-saved (key u o) j flag rows,
      find-grant_to_superusers superusers u o j saved,
      key_parts u o j,
    )

-- Without a user, `ungrant_access_to_object` removes every row of the object and no other.
pub find-ungrant_all :
    (superusers : List ℕ) (o : Object) (rows : Table) (j : Key)
    → find j (ungrant_access_to_object superusers o none rows).1
      ≡ (if o == j.object then none else find j rows)
unfolding ungrant_access_to_object
find-ungrant_all superusers o rows j = find-delete_object o j rows

-- the objects of a list
abbrev pub lists : List Object → Object → Bool
lists objects p = any (λ o. o == p) objects

-- `ungrant_access_to_objects` removes the rows of the listed objects and no others.
pub find-ungrant_access_to_objects :
    (objects : List Object) (rows : Table) (j : Key)
    → find j (ungrant_access_to_objects objects rows)
      ≡ (if lists objects j.object then none else find j rows)
unfolding ungrant_access_to_objects
find-ungrant_access_to_objects [] rows j = refl
find-ungrant_access_to_objects (o ∷ objects) rows j = ground (
  arith,
  find-ungrant_access_to_objects objects (delete_object o rows) j,
  find-delete_object o j rows,
)

-- grant_access_to_objects gives the user a row for each listed object, keeping the flag of the
-- rows that are there, and changes no other row.
pub find-grant_access_to_objects :
    (u : ℕ) (objects : List Object) (rows : Table) (j : Key)
    → find j (grant_access_to_objects u objects rows) ≡ (
        if u == j.account && lists objects j.object
        then some (get_or (find j rows) false)
        else find j rows)
unfolding grant_access_to_objects
find-grant_access_to_objects u [] rows j = ground arith
find-grant_access_to_objects u (o ∷ objects) rows j = ground (
  arith,
  find-grant_access_to_objects u objects (get_or_create (key u o) rows).1 j,
  find-get_or_create (key u o) j rows,
  key_parts u o j,
  ==_iff (key u o) j,
)
