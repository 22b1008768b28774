-- ===== src/Limits/Tests.antt =====
-- A reseller with ten mailboxes in its pool, three of them in use, and a domain administrator.
use mrt_post_office.Prelude.{
  ℕ, ◌≡◌, refl, ◌≢◌, true, false, none, some, [], ◌∷◌, arith, ◌⊎◌, List, Text, ◌==◌, text_eq,
  ==_iff, sym, ◌∙◌,
}
use mrt_post_office.Prelude.Int.{ℤ, pos, ◌≤ℤ◌, ◌+ℤ◌, ◌-ℤ◌, int_laws}
use mrt_post_office.Prelude.Chars.{codes}
use mrt_post_office.Prelude.Dict.{lookup}
use mrt_post_office.Prelude.Result.{ok}
use mrt_post_office.Permissions.Table.{mailbox, key, ObjectAccess}
use mrt_post_office.Permissions.Table.{find, key_eq, same_object, same_key}
use mrt_post_office.Permissions.Grant.{get_object_owner}
use mrt_post_office.Permissions.Accounts.{User, role, can_access}
use mrt_post_office.Permissions.Access.{account_of}
use mrt_post_office.Limits.Roles.{set_role, account_role_changed, set_role-accesses}
use mrt_post_office.Limits.World.{
  mailboxes, quota, limit_key, limit_key_eq, same_limit_key, Limits, World, content_type,
}
use mrt_post_office.Limits.Limit.{current_value, is_exceeded}
use mrt_post_office.Limits.Pool.{
  unlimited, is_unchanged, allocate_resources_from_user, assign_limit,
}
use mrt_post_office.Limits.Handlers.{klass, user_limits, check_each, check_user_limit}
use mrt_post_office.Limits.Bounds.{assign_limit-conserves}

abbrev owns_mailbox : ℕ → ℕ → ObjectAccess
owns_mailbox u n = record {
  at_key = key u (record { content_type = mailbox; object_id = n });
  is_owner = true;
}

abbrev world : World
world = record {
  accesses = owns_mailbox 1 10 ∷ owns_mailbox 1 11 ∷ owns_mailbox 1 12 ∷ [];
  users = [];
  domain_rows = [];
  alias_domains = [];
  mailbox_domains = [];
  aliases = [];
}

abbrev pool : Limits
pool =
    (limit_key 1 mailboxes, pos 10)
    ∷ (limit_key 2 mailboxes, pos 2)
    ∷ (limit_key 1 quota, unlimited)
    ∷ []

abbrev after : Limits
after =
    (limit_key 1 mailboxes, pos 7)
    ∷ (limit_key 2 mailboxes, pos 5)
    ∷ (limit_key 1 quota, unlimited)
    ∷ []

assigned : assign_limit false 1 2 mailboxes (pos 5) world pool ≡ ok after
unfolding assign_limit allocate_resources_from_user current_value same_limit_key ◌-ℤ◌ content_type
assigned = refl

assign_limit-conserves_example :
    (left : ℤ) × (lookup (limit_key 1 mailboxes) after ≡ some left)
    × (lookup (limit_key 2 mailboxes) after ≡ some (pos 5))
    × (left +ℤ pos 5 ≡ pos 10 +ℤ pos 2)
    × ((current_value mailboxes 1 world ≤ℤ left) ⊎ (is_unchanged (pos 2) (pos 5) ≡ true))
assign_limit-conserves_example =
    assign_limit-conserves 1 2 mailboxes (pos 5) (pos 10) (pos 2) world pool after
      (λ e. omega (arith, e)) (grind int_laws) (unfold same_limit_key in refl)
      (unfold same_limit_key in refl) assigned

checked : check_user_limit true 1 false (klass mailbox) 7 none world pool ≡ ok tt
unfolding check_user_limit current_value check_each user_limits content_type is_exceeded ◌+ℤ◌
checked = refl

abbrev reseller_user : User
reseller_user = record { pk = 1; is_superuser = false; groups = codes "Resellers" ∷ [] }

abbrev simple_user : User
simple_user = record { pk = 1; is_superuser = false; groups = codes "SimpleUsers" ∷ [] }

abbrev groups : List Text
groups = codes "SimpleUsers" ∷ codes "Resellers" ∷ []

demoted :
    set_role groups (9 ∷ []) [] [] (codes "SimpleUsers") reseller_user world.accesses pool
    ≡ ok (simple_user, [], pool)
unfolding set_role role account_role_changed get_object_owner same_object same_key
demoted = refl

true_is_not_false : true ≢ false
true_is_not_false e = cc

differs : (a b : Text) → (a == b) ≡ false → a ≢ b
differs a b h e = true_is_not_false (sym ((==_iff a b).1 e) ∙ h)

set_role-accesses_example :
    (codes "SimpleUsers" ≡ codes "SimpleUsers"
      → find (key 1 (record { content_type = mailbox; object_id = 10 })) [] ≡ none)
    × (codes "SimpleUsers" ≢ codes "SimpleUsers" → can_access simple_user (account_of 1) [] ≡ true)
set_role-accesses_example =
    set_role-accesses groups (9 ∷ []) [] [] (codes "SimpleUsers") reseller_user simple_user
      (record { content_type = mailbox; object_id = 10 }) world.accesses [] pool pool
      (differs (role reseller_user) (codes "SimpleUsers") (unfold role in refl))
      (differs (codes "SimpleUsers") (codes "SuperAdmins") refl) demoted
