-- ===== src/Permissions/Ownership.antt =====
-- Owners: a grant makes one or unmakes one, and taking a user's access away leaves no object
-- without an owner.
use mrt_post_office.Prelude.{
  ℕ, ◌≤◌, ◌≡◌, refl, ap, ◌∙◌, Bool, true, false, not, ◌&&◌, some, List, [], ◌∷◌, arith, ◌==◌,
  nat_eq, ==_iff, ==_refl, length, filter,
}
use mrt_post_office.Prelude.Result.{ok}
use mrt_post_office.Permissions.Table.{
  Object, object_eq, Key, key, same_key, key_eq, Table, find, owners, delete, save_owner,
  get_or_create,
}
use mrt_post_office.Permissions.Grant.{grant_access_to_object, ungrant_access_to_object, give_owner}
use mrt_post_office.Permissions.Lookup.{is_in, find-grant_access_to_object}

key_parts' : (u : ℕ) (o : Object) (j : Key) → (j == key u o) ≡ (j.account == u && j.object == o)
unfolding same_key
key_parts' u o j = refl

-- a user is listed as owner where its row has the flag
find-owner :
    (u : ℕ) (o : Object) (rows : Table)
    → find (key u o) rows ≡ some true
    → is_in u (owners o rows) ≡ true
find-owner u o [] h = cc
find-owner u o (r ∷ rows) h =
    ground (arith, find-owner u o rows, ==_iff r.at_key (key u o), ==_iff r.at_key.object o)

length-is_in : (u : ℕ) (users : List ℕ) → is_in u users ≡ true → 1 ≤ length users
length-is_in u [] h = cc
length-is_in u (w ∷ users) h = omega arith

give_owner-owners :
    (su : ℕ) (superusers : List ℕ) (o : Object) (users : List ℕ) (rows : Table)
    → owners o rows ≡ users
    → (give_owner (su ∷ superusers) o users rows).0 ≡ ok tt
    → 1 ≤ length (owners o (give_owner (su ∷ superusers) o users rows).1)
give_owner-owners su superusers o [] rows e h =
    let rows' : Table = grant_access_to_object (su ∷ superusers) su o true rows in
    length-is_in su (owners o rows') (
      find-owner su o rows' (
        ground (
          arith,
          find-grant_access_to_object (su ∷ superusers) su o true rows (key su o),
          ==_refl (key su o),
        )))
give_owner-owners su superusers o (u ∷ []) rows e h = rw e (omega arith)
give_owner-owners su superusers o (u ∷ w ∷ users) rows e h = cc

-- Where there is a super user: when the access of one user to an object is taken away without an
-- error, the object still has an owner.
pub ungrant_access_to_object-owners :
    (su : ℕ) (superusers : List ℕ) (o : Object) (u : ℕ) (rows : Table)
    → (ungrant_access_to_object (su ∷ superusers) o (some u) rows).0 ≡ ok tt
    → 1 ≤ length (owners o (ungrant_access_to_object (su ∷ superusers) o (some u) rows).1)
unfolding ungrant_access_to_object
ungrant_access_to_object-owners su superusers o u rows h =
    give_owner-owners su superusers o (owners o (delete (key u o) rows)) (delete (key u o) rows)
      refl h

abbrev pub others : ℕ → List ℕ → List ℕ
others u users = filter (λ w. not (w == u)) users

owners-save_owner :
    (u : ℕ) (o : Object) (rows : Table)
    → owners o (save_owner (key u o) false rows) ≡ others u (owners o rows)
owners-save_owner u o [] = refl
owners-save_owner u o (r ∷ rows) = ground (
  arith,
  owners-save_owner u o rows,
  ==_iff r.at_key (key u o),
  key_parts' u o r.at_key,
  ==_iff r.at_key.object o,
)

regrant :
    (superusers : List ℕ) (u : ℕ) (o : Object) (rows : Table) (flag : Bool)
    → find (key u o) rows ≡ some flag
    → grant_access_to_object superusers u o false rows ≡ save_owner (key u o) false rows
unfolding grant_access_to_object get_or_create
regrant superusers u o rows flag h = ground arith

-- Granting administration of an object to a user who owns it, without the flag, takes the
-- ownership away: the owners afterwards are the others.
pub grant_access_to_object_unowns :
    (superusers : List ℕ) (u : ℕ) (o : Object) (rows : Table)
    → find (key u o) rows ≡ some true
    → owners o (grant_access_to_object superusers u o false rows) ≡ others u (owners o rows)
grant_access_to_object_unowns superusers u o rows h =
    ap (owners o) (regrant superusers u o rows true h) ∙ owners-save_owner u o rows
