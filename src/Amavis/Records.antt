-- ===== src/Amavis/Records.antt =====
-- create_user_and_policy, create_user_and_use_policy, update_user_and_policy,
-- delete_user_and_policy and delete_user of modoboa/amavis/lib.py.
use mrt_post_office.Prelude.{
  ℕ, ◌+◌, not, ◌&&◌, Option, none, some, List, [], ◌∷◌, ◌++◌, map, Text, if◌then◌else◌, ◌==◌,
  nat_eq, text_eq, filter, is_some,
}
use mrt_post_office.Prelude.Result.{ok, err, ◌>>=◌}
use mrt_post_office.Amavis.Tables.{
  Policy, UserRow, Tables, Outcome, does_not_exist, multiple_objects_returned, integrity_error,
  take, find_user, find_policies, get, new_policy, save_policy, delete_policy,
}

-- `Policy.objects.get_or_create(policy_name=name)`, by the policies of that name
abbrev pub get_or_create_policy : List Policy → Text → Tables → Outcome (Policy × Tables)
get_or_create_policy [] name t =
    let p = new_policy t.next_pk name in
    ok (p, record t { policies = t.policies ++ p ∷ []; next_pk = t.next_pk + 1 })
get_or_create_policy (p ∷ []) name t = ok (p, t)
get_or_create_policy (p ∷ q ∷ more) name t = err (multiple_objects_returned, t)

abbrev pub new_user : Text → ℕ → ℕ → UserRow
new_user name priority pk = record {
  email = name;
  fullname = name;
  priority = priority;
  policy = pk;
}

abbrev pub append_user : UserRow → Tables → Tables
append_user u t = record t { users = t.users ++ u ∷ [] }

abbrev pub create_if_new : Option UserRow → UserRow → Tables → Tables
create_if_new none new t = append_user new t
create_if_new (some u) new t = t

unfoldable pub create_user_and_policy : Text → ℕ → Tables → Outcome (Policy × Tables)
create_user_and_policy name priority t = do
  found ← get_or_create_policy (find_policies (take 32 name) t.policies) (take 32 name) t
  ok (
    found.0,
    create_if_new (find_user name found.1.users) (new_user name priority found.0.pk) found.1,
  )

-- `Users.objects.get_or_create(...)` on all columns: another row with the address is an error
abbrev pub get_or_create_user : Option UserRow → UserRow → Tables → Outcome Tables
get_or_create_user none new t = ok (append_user new t)
get_or_create_user (some u) new t =
    if u.fullname == new.fullname && (u.priority == new.priority && u.policy == new.policy)
    then ok t
    else err (integrity_error, t)

unfoldable pub create_user_and_use_policy : Text → ℕ → ℕ → Tables → Outcome Tables
create_user_and_use_policy name pk priority t =
    get_or_create_user (find_user name t.users) (new_user name priority pk) t

-- the policy given by its name
unfoldable pub create_user_and_use_policy_named : Text → Text → ℕ → Tables → Outcome Tables
unfolding create_user_and_use_policy
create_user_and_use_policy_named name policy priority t = do
  p ← get (find_policies (take 32 policy) t.policies) t
  create_user_and_use_policy name p.pk priority t

-- `u.email = new` with `u.fullname = new`, and without
abbrev pub set_names : Text → UserRow → UserRow
set_names new u = record u { email = new; fullname = new }

abbrev pub set_email : Text → UserRow → UserRow
set_email new u = record u { email = new }

abbrev pub rename_user : (UserRow → UserRow) → (old : Text) → List UserRow → List UserRow
rename_user rename old users = map (λ u. if u.email == old then rename u else u) users

-- the user after its policy, where the new address may be taken
abbrev pub save_renamed : (UserRow → UserRow) → (old new : Text) → Tables → Outcome Tables
save_renamed rename old new t =
    if not (new == old) && is_some (find_user new t.users)
    then err (integrity_error, t)
    else ok (record t { users = rename_user rename old t.users })

abbrev pub update_found :
    Option UserRow
    → (UserRow → UserRow)
    → (old new : Text) → (Policy → Policy)
    → Tables
    → Outcome Tables
update_found none rename old new change t = err (does_not_exist, t)
update_found (some u) rename old new change t =
    save_renamed rename old new (record t { policies = save_policy u.policy change t.policies })

unfoldable pub update_user_and_policy : (oldname newname : Text) → Tables → Outcome Tables
update_user_and_policy oldname newname t =
    if oldname == newname
    then ok t
    else update_found (find_user oldname t.users) (set_names newname) oldname newname
        (λ p. record p { policy_name = take 32 newname }) t

abbrev pub delete_found : Option UserRow → Tables → Tables
delete_found none t = t
delete_found (some u) t = delete_policy u.policy t

-- The row of the user itself went with its policy.
unfoldable pub delete_user_and_policy : Text → Tables → Tables
unfolding delete_policy
delete_user_and_policy name t = delete_found (find_user name t.users) t

unfoldable pub delete_user : Text → Tables → Tables
delete_user name t = record t { users = filter (λ u. not (u.email == name)) t.users }
