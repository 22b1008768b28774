-- ===== src/Limits/Pool.antt =====
-- allocate_resources_from_user of modoboa/limits/lib.py, move_pool_resource of
-- modoboa/limits/utils.py, and the assignment of a limit by the serializers.
use mrt_post_office.Prelude.{ℕ, Bool, ◌&&◌, not, List, [], ◌∷◌, if◌then◌else◌}
use mrt_post_office.Prelude.Int.{ℤ, pos, negsuc, ◌+ℤ◌, ◌-ℤ◌, ltb_ℤ, eqb_ℤ}
use mrt_post_office.Prelude.Dict.{lookup, insert}
use mrt_post_office.Prelude.Result.{Result, ok, err, ◌>>=◌, or_raise}
use mrt_post_office.Limits.World.{
  LimitName, limit_key, limit_key_eq, Limits, World, user_limit_templates,
}
use mrt_post_office.Limits.Limit.{
  Error, unsufficient_resource, bad_limit_value, does_not_exist, current_value,
}

-- `-1` is "unlimited"
abbrev pub unlimited : ℤ
unlimited = negsuc 0

-- what is taken from the pool: the whole value, or what it adds to a limit that is set
abbrev pub needed : ℤ → ℤ → ℤ
needed old value = if ltb_ℤ unlimited old then value -ℤ old else value

-- nothing is taken for a limit that keeps its value
abbrev pub is_unchanged : ℤ → ℤ → Bool
is_unchanged old value = ltb_ℤ unlimited old && eqb_ℤ (value -ℤ old) (pos 0)

-- the test and the update of `ol`, from its maximum, its current value, the old limit and the new
abbrev pub take_from : ℤ → ℤ → ℤ → ℤ → Result Error ℤ
take_from max_value current old value =
    if eqb_ℤ value unlimited && not (eqb_ℤ max_value unlimited)
    then err bad_limit_value
    else if is_unchanged old value
    then ok max_value
    else if ltb_ℤ (max_value -ℤ current) (needed old value)
    then err unsufficient_resource
    else ok (max_value -ℤ needed old value)

-- the name and the value of the limit, the user that gives, and the new value
unfoldable pub allocate_resources_from_user :
    LimitName → ℤ → ℕ → ℤ → World → Limits → Result Error Limits
allocate_resources_from_user name old user value w limits = do
  max_value ← or_raise (lookup (limit_key user name) limits) does_not_exist
  left ← take_from max_value (current_value name user w) old value
  ok (insert (limit_key user name) left limits)

-- `limit = ...get(name=name)`, the allocation unless the giver is a super user, and the new value
unfoldable pub assign_limit : Bool → ℕ → ℕ → LimitName → ℤ → World → Limits → Result Error Limits
assign_limit giver_is_superuser giver receiver name value w limits = do
  old ← or_raise (lookup (limit_key receiver name) limits) does_not_exist
  limits' ←
      if giver_is_superuser
      then ok limits
      else allocate_resources_from_user name old giver value w limits
  ok (insert (limit_key receiver name) value limits')

abbrev pub add_to : ℕ → LimitName → ℤ → Limits → Result Error Limits
add_to owner name value limits = do
  max_value ← or_raise (lookup (limit_key owner name) limits) does_not_exist
  ok (insert (limit_key owner name) (max_value +ℤ value) limits)

-- one round of the loop of `move_pool_resource`: `continue` where the limit is negative
unfoldable pub move_limit : ℕ → ℕ → LimitName → Limits → Result Error Limits
move_limit owner user name limits = do
  value ← or_raise (lookup (limit_key user name) limits) does_not_exist
  if ltb_ℤ value (pos 0) then ok limits else add_to owner name value limits

abbrev pub move_limits : List LimitName → ℕ → ℕ → Limits → Result Error Limits
move_limits [] owner user limits = ok limits
move_limits (name ∷ names) owner user limits = do
  limits' ← move_limit owner user name limits
  move_limits names owner user limits'

unfoldable pub move_pool_resource : ℕ → ℕ → Limits → Result Error Limits
unfolding move_limit
move_pool_resource owner user limits = move_limits user_limit_templates owner user limits
