-- ===== src/Limits/Bounds.antt =====
-- Pools of resources: what handing on and handing back keep.
use mrt_post_office.Prelude.{
  ℕ, suc, ◌+◌, ◌≡◌, ap, sym, ◌∙◌, ◌≢◌, true, false, some, arith, ==_ne, Bool-cases, inl, inr, ◌⊎◌,
}
use mrt_post_office.Prelude.Int.{ℤ, pos, ◌+ℤ◌, ◌≤ℤ◌, int_laws}
use mrt_post_office.Prelude.Dict.{lookup, insert, lookup-insert, lookup-insert_self}
use mrt_post_office.Prelude.Result.{Result, ok, err, ◌>>=◌, >>=-eq-ok}
use mrt_post_office.Limits.World.{LimitName, LimitKey, limit_key, limit_key_eq, Limits, World}
use mrt_post_office.Limits.Limit.{Error, unsufficient_resource, current_value}
use mrt_post_office.Limits.Pool.{
  unlimited, is_unchanged, take_from, allocate_resources_from_user, assign_limit,
}

-- What is left of the pool is at least what is in use, where anything was taken.
take_from_bound :
    (max_value current old value : ℤ) {left : ℤ}
    → take_from max_value current old value ≡ ok left
    → is_unchanged old value ≡ false
    → current ≤ℤ left
take_from_bound max_value current old value h u = grind int_laws

-- Between two limits that are numbers, what the pool loses is what the limit gains.
take_from_conserves :
    (max_value current old value : ℤ) {left : ℤ}
    → pos 0 ≤ℤ old
    → take_from max_value current old value ≡ ok left
    → left +ℤ value ≡ max_value +ℤ old
take_from_conserves max_value current old value p h = grind int_laws

allocate-eq :
    (name : LimitName) (old : ℤ) (u : ℕ) (value : ℤ) (w : World) (limits : Limits) (max_value : ℤ)
    {limits' : Limits}
    → lookup (limit_key u name) limits ≡ some max_value
    → allocate_resources_from_user name old u value w limits ≡ ok limits'
    → (left : ℤ) × (take_from max_value (current_value name u w) old value ≡ ok left)
      × (limits' ≡ insert (limit_key u name) left limits)
unfolding allocate_resources_from_user
allocate-eq name old u value w limits max_value e h =
    let step : Result Error Limits =
      take_from max_value (current_value name u w) old value >>= λ left.
      ok (insert (limit_key u name) left limits) in
    let same : allocate_resources_from_user name old u value w limits ≡ step = rw e in
    let (left, t, c) =
      >>=-eq-ok (take_from max_value (current_value name u w) old value) _ (sym same ∙ h) in
    (left, t, cc c)

assign-eq :
    (giver receiver : ℕ) (name : LimitName) (value : ℤ) (w : World) (limits : Limits) (old : ℤ)
    {limits' : Limits}
    → lookup (limit_key receiver name) limits ≡ some old
    → assign_limit false giver receiver name value w limits ≡ ok limits'
    → (middle : Limits) × (allocate_resources_from_user name old giver value w limits ≡ ok middle)
      × (limits' ≡ insert (limit_key receiver name) value middle)
unfolding assign_limit
assign-eq giver receiver name value w limits old e h = ground arith

limit_key-ne : (u v : ℕ) (name : LimitName) → u ≢ v → limit_key u name ≢ limit_key v name
limit_key-ne u v name ne e = ne (ap (λ (k : LimitKey). k.owner) e)

-- When a user that is no super user changes the limit of another, which is not negative, without
-- an error: the new value is stored, what the giver loses is what the receiver gains, and the
-- giver keeps at least what it uses unless nothing was taken.
pub assign_limit-conserves :
    (giver receiver : ℕ) (name : LimitName) (value max_value old : ℤ) (w : World)
    (limits limits' : Limits)
    → giver ≢ receiver
    → pos 0 ≤ℤ old
    → lookup (limit_key giver name) limits ≡ some max_value
    → lookup (limit_key receiver name) limits ≡ some old
    → assign_limit false giver receiver name value w limits ≡ ok limits'
    → (left : ℤ) × (lookup (limit_key giver name) limits' ≡ some left)
      × (lookup (limit_key receiver name) limits' ≡ some value)
      × (left +ℤ value ≡ max_value +ℤ old)
      × ((current_value name giver w ≤ℤ left) ⊎ (is_unchanged old value ≡ true))
assign_limit-conserves giver receiver name value max_value old w limits limits' ne p g k h =
    let (middle, a, b) = assign-eq giver receiver name value w limits old k h in
    let (left, t, c) = allocate-eq name old giver value w limits max_value g a in
    let giver_key = limit_key giver name in
    let receiver_key = limit_key receiver name in
    let apart = ==_ne receiver_key giver_key (limit_key-ne receiver giver name (λ e. ne (sym e))) in
    (
      left,
      rw (b, c)
          (rw (lookup-insert receiver_key giver_key value (insert giver_key left limits), apart)
            (lookup-insert_self giver_key left limits)),
      rw b (lookup-insert_self receiver_key value middle),
      take_from_conserves max_value (current_value name giver w) old value p t,
      elim (Bool-cases (is_unchanged old value)) [
        | inl same ↦ inr same
        | inr differ ↦
            inl (take_from_bound max_value (current_value name giver w) old value t differ)
      ],
    )

take_from-unlimited :
    (o v c : ℕ) → take_from unlimited (pos c) (pos o) (pos (o + suc v)) ≡ err unsufficient_resource
take_from-unlimited o v c = grind int_laws

-- A giver whose limit is -1, and who uses a number of objects that is not negative, cannot raise
-- the limit of another from one number to a larger one: the allocation is refused for want of
-- resources.
pub unlimited_giver_refused :
    (name : LimitName) (o v : ℕ) (u c : ℕ) (w : World) (limits : Limits)
    → lookup (limit_key u name) limits ≡ some unlimited
    → current_value name u w ≡ pos c
    → allocate_resources_from_user name (pos o) u (pos (o + suc v)) w limits
      ≡ err unsufficient_resource
unfolding allocate_resources_from_user
unlimited_giver_refused name o v u c w limits e f = rw (e, f, take_from-unlimited o v c)
