-- ===== src/Limits/Checks.antt =====
-- What an accepted check of a limit means, and what handing back a pool does.
use mrt_post_office.Prelude.{
  ℕ, ◌≡◌, refl, ◌≢◌, Bool, true, false, Option, none, some, List, [], ◌∷◌, ==_ne, ◌⊎◌, ⊤, All,
  get_or,
}
use mrt_post_office.Prelude.Int.{ℤ, pos, ◌+ℤ◌, ◌-ℤ◌, ◌≤ℤ◌, ltb_ℤ, int_laws}
use mrt_post_office.Prelude.Dict.{lookup, insert, lookup-insert, lookup-insert_self}
use mrt_post_office.Prelude.Result.{Result, ok, err}
use mrt_post_office.Limits.World.{
  LimitName, LimitKey, limit_key, limit_key_eq, Limits, World, is_count,
}
use mrt_post_office.Limits.Limit.{Error, Instance, current_value, is_exceeded}
use mrt_post_office.Limits.Pool.{unlimited, add_to, move_limit}
use mrt_post_office.Limits.Handlers.{
  Selector, user_limits, raise_if_exceeded, check_each, check_user_limit,
}

-- The room that a limit leaves: a limit that counts is -1, or is not passed by the new objects; one
-- that adds up is not passed once the instance's change is added, if it is set and there is one.
abbrev pub HasRoom : Bool → ℤ → ℤ → ℕ → Option Instance → Type 0
HasRoom true max_value current count instance =
    (max_value ≡ unlimited) ⊎ (current +ℤ pos count ≤ℤ max_value)
HasRoom false max_value current count none = ⊤
HasRoom false max_value current count (some i) =
    (max_value ≡ pos 0) ⊎ (current +ℤ (i.value -ℤ get_or i.loaded (pos 0)) ≤ℤ max_value)

is_exceeded-HasRoom :
    (counts : Bool) (max_value current : ℤ) (count : ℕ) (instance : Option Instance)
    → is_exceeded counts max_value current count instance ≡ ok false
    → HasRoom counts max_value current count instance
unfolding is_exceeded
is_exceeded-HasRoom true max_value current count instance h = grind int_laws
is_exceeded-HasRoom false max_value current count none h = tt
is_exceeded-HasRoom false max_value current count (some i) h = grind int_laws

-- Every limit of the list has room.
abbrev pub AllHaveRoom : List (LimitName × ℤ) → ℕ → ℕ → Option Instance → World → Type 0
AllHaveRoom limits u count instance w =
    All
      (λ (limit : LimitName × ℤ).
        HasRoom (is_count limit.0) limit.1 (current_value limit.0 u w) count instance)
      limits

raise_if_exceeded-ok :
    (r : Result Error Bool) (rest : Result Error ⊤)
    → raise_if_exceeded r rest ≡ ok tt
    → (r ≡ ok false) × (rest ≡ ok tt)
raise_if_exceeded-ok (ok false) rest h = (refl, h)
raise_if_exceeded-ok (ok true) rest h = cc
raise_if_exceeded-ok (err e) rest h = cc

check_each-AllHaveRoom :
    (limits : List (LimitName × ℤ)) (u count : ℕ) (instance : Option Instance) (w : World)
    → check_each limits u count instance w ≡ ok tt
    → AllHaveRoom limits u count instance w
unfolding check_each
check_each-AllHaveRoom [] u count instance w h = tt
check_each-AllHaveRoom ((name, max_value) ∷ limits) u count instance w h =
    let current = current_value name u w in
    let (room, rest) =
      raise_if_exceeded-ok (is_exceeded (is_count name) max_value current count instance)
        (check_each limits u count instance w) h in
    (
      is_exceeded-HasRoom (is_count name) max_value current count instance room,
      check_each-AllHaveRoom limits u count instance w rest,
    )

-- A check that passes for a user that is subject to limits found room in each limit that it
-- looked at: a counting limit is -1 or is at least the number of objects with the new ones, and
-- the quota is not passed once the change of the instance is added.
check_user_limit-AllHaveRoom :
    (u : ℕ) (selector : Selector) (count : ℕ) (instance : Option Instance) (w : World)
    (limits : Limits)
    → check_user_limit true u false selector count instance w limits ≡ ok tt
    → AllHaveRoom (user_limits u selector limits) u count instance w
unfolding check_user_limit
check_user_limit-AllHaveRoom u selector count instance w limits h =
    check_each-AllHaveRoom (user_limits u selector limits) u count instance w h

add_to-eq :
    (owner : ℕ) (name : LimitName) (m value : ℤ) (limits : Limits)
    → lookup (limit_key owner name) limits ≡ some m
    → add_to owner name value limits ≡ ok (insert (limit_key owner name) (m +ℤ value) limits)
add_to-eq owner name m value limits e = rw e

not_negative : (v : ℕ) → ltb_ℤ (pos v) (pos 0) ≡ false
not_negative v = grind int_laws

move_limit-eq :
    (owner user : ℕ) (name : LimitName) (m : ℤ) (v : ℕ) (limits : Limits)
    → lookup (limit_key owner name) limits ≡ some m
    → lookup (limit_key user name) limits ≡ some (pos v)
    → move_limit owner user name limits ≡ ok (insert (limit_key owner name) (m +ℤ pos v) limits)
unfolding move_limit
move_limit-eq owner user name m v limits e f = rw (f, not_negative v, e)

-- Handing back the limit of a user whose value is a number goes through, raises the limit of the
-- owner by that value, be it -1 or not, and leaves all other limits, those of the user among
-- them.
pub move_limit-moves :
    (owner user : ℕ) (name : LimitName) (m : ℤ) (v : ℕ) (limits : Limits)
    → lookup (limit_key owner name) limits ≡ some m
    → lookup (limit_key user name) limits ≡ some (pos v)
    → (limits' : Limits) × (move_limit owner user name limits ≡ ok limits')
      × (lookup (limit_key owner name) limits' ≡ some (m +ℤ pos v))
      × ((k : LimitKey) → limit_key owner name ≢ k → lookup k limits' ≡ lookup k limits)
move_limit-moves owner user name m v limits e f =
    let owner_key = limit_key owner name in
    (
      insert owner_key (m +ℤ pos v) limits,
      move_limit-eq owner user name m v limits e f,
      lookup-insert_self owner_key (m +ℤ pos v) limits,
      λ k apart. rw (lookup-insert owner_key k (m +ℤ pos v) limits, ==_ne owner_key k apart),
    )
