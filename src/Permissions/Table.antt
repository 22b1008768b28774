-- ===== src/Permissions/Table.antt =====
-- The table behind `class ObjectAccess` of modoboa/core/models.py. Its rows are the state; a query
-- on it selects the rows whose columns have the values that the query names.
use mrt_post_office.Prelude.{
  ℕ, ◌≡◌, ◌↔◌, Bool, true, false, ◌&&◌, Option, none, some, List, [], ◌∷◌, ◌++◌, arith,
  if◌then◌else◌, Eq, ◌==◌, nat_eq, nat_eqb,
}

-- The models whose instances are administrated
pub data ContentType : Type 0 where
  user domain domain_alias mailbox alias other : ContentType

abbrev pub type_code : ContentType → ℕ
type_code user = 0
type_code domain = 1
type_code domain_alias = 2
type_code mailbox = 3
type_code alias = 4
type_code other = 5

abbrev pub same_type : ContentType → ContentType → Bool
same_type a b = nat_eqb (type_code a) (type_code b)

pub same_type_iff : (a b : ContentType) → (same_type a b ≡ true) ↔ (a ≡ b)
same_type_iff a b = ground arith

instance abbrev pub content_type_eq : Eq ContentType
content_type_eq = record { equals = same_type; equals_iff = same_type_iff }

-- A content type and an `object_id`
pub record Object : Type 0 where
  pub content_type : ContentType
  pub object_id : ℕ

-- `unfoldable`, and not `abbrev`: proofs use it through its law.
unfoldable pub same_object : Object → Object → Bool
same_object a b = same_type a.content_type b.content_type && nat_eqb a.object_id b.object_id

pub same_object_iff : (a b : Object) → (same_object a b ≡ true) ↔ (a ≡ b)
unfolding same_object
same_object_iff a b = ground (arith, same_type_iff a.content_type b.content_type)

instance abbrev pub object_eq : Eq Object
object_eq = record { equals = same_object; equals_iff = same_object_iff }

-- What is unique in the table: a user, by its primary key, and an object
pub record Key : Type 0 where
  pub account : ℕ
  pub object : Object

abbrev pub key : ℕ → Object → Key
key u o = record { account = u; object = o }

unfoldable pub same_key : Key → Key → Bool
same_key k j = nat_eqb k.account j.account && same_object k.object j.object

pub same_key_iff : (k j : Key) → (same_key k j ≡ true) ↔ (k ≡ j)
unfolding same_key
same_key_iff k j = ground (arith, same_object_iff k.object j.object)

instance abbrev pub key_eq : Eq Key
key_eq = record { equals = same_key; equals_iff = same_key_iff }

-- A row
pub record ObjectAccess : Type 0 where
  pub at_key : Key
  pub open at_key use *
  pub is_owner : Bool

abbrev pub Table : Type 0
Table = List ObjectAccess

-- `get(user=u, content_type=ct, object_id=id)`: the ownership flag of the row
abbrev pub find : Key → Table → Option Bool
find k [] = none
find k (row ∷ rows) = if row.at_key == k then some row.is_owner else find k rows

-- `filter(content_type=ct, object_id=id, is_owner=True)`: the users of the rows
abbrev pub owners : Object → Table → List ℕ
owners o [] = []
owners o (row ∷ rows) =
    if row.at_key.object == o && row.is_owner
    then row.at_key.account ∷ owners o rows
    else owners o rows

-- `.delete()` on the row of a user and an object
abbrev pub delete : Key → Table → Table
delete k [] = []
delete k (row ∷ rows) = if row.at_key == k then delete k rows else row ∷ delete k rows

-- `filter(content_type=ct, object_id=id).delete()`
abbrev pub delete_object : Object → Table → Table
delete_object o [] = []
delete_object o (row ∷ rows) =
    if row.at_key.object == o then delete_object o rows else row ∷ delete_object o rows

-- `entry.is_owner = flag; entry.save()`
abbrev pub save_owner : Key → Bool → Table → Table
save_owner k flag [] = []
save_owner k flag (row ∷ rows) =
    (if row.at_key == k then record row { is_owner = flag } else row) ∷ save_owner k flag rows

abbrev pub insert : Key → Table → Table
insert k rows = rows ++ record { at_key = k; is_owner = false } ∷ []

-- `get_or_create(user=u, content_type=ct, object_id=id)`: was it created, and the table
unfoldable pub get_or_create : Key → Table → Bool × Table
get_or_create k rows = elim (find k rows) [ some _ ↦ (false, rows) | none ↦ (true, insert k rows) ]
