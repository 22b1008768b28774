-- ===== src/Limits/Handlers.antt =====
-- The signal handlers of modoboa/limits/handlers.py, and get_account_roles of
-- modoboa/lib/permissions.py, which asks one of them. The global parameters that they read are
-- arguments.
use mrt_post_office.Prelude.{
  ℕ, Bool, true, false, not, ◌&&◌, ◌||◌, Option, none, some, List, [], ◌∷◌, ◌++◌, Text,
  if◌then◌else◌, ◌==◌, nat_eq, nat_eqb, text_eq, ⊤,
}
use mrt_post_office.Prelude.Int.{ℤ, pos}
use mrt_post_office.Prelude.Chars.{codes}
use mrt_post_office.Prelude.Dict.{lookup, insert}
use mrt_post_office.Prelude.Result.{Result, ok, err, ◌>>=◌, or_raise}
use mrt_post_office.Permissions.Table.{ContentType, content_type_eq}
use mrt_post_office.Limits.World.{
  LimitName, DomainLimitName, limit_key, limit_key_eq, Limits, World, content_type, is_count,
  name_code, user_limit_templates, domain_limit_templates,
}
use mrt_post_office.Limits.Limit.{
  Error, limit_reached, does_not_exist, Instance, current_value, domain_current_value, is_exceeded,
}
use mrt_post_office.Limits.Pool.{move_pool_resource}

-- `klass` or `object_type` among the arguments of the signal
pub data Selector : Type 0 where
  klass : ContentType → Selector
  object_type : LimitName → Selector

abbrev pub selects : Selector → LimitName → Bool
selects (klass ct) name = content_type name == ct
selects (object_type wanted) name = nat_eqb (name_code name) (name_code wanted)

-- `userobjectlimit_set.filter(...)`
unfoldable pub user_limits : ℕ → Selector → Limits → List (LimitName × ℤ)
user_limits u selector [] = []
user_limits u selector ((k, max_value) ∷ limits) =
    if k.owner == u && selects selector k.name
    then (k.name, max_value) ∷ user_limits u selector limits
    else user_limits u selector limits

abbrev pub raise_if_exceeded : Result Error Bool → Result Error ⊤ → Result Error ⊤
raise_if_exceeded (err e) rest = err e
raise_if_exceeded (ok true) rest = err limit_reached
raise_if_exceeded (ok false) rest = rest

-- the loop over the limits of a user
unfoldable pub check_each : List (LimitName × ℤ) → ℕ → ℕ → Option Instance → World → Result Error ⊤
check_each [] u count instance w = ok tt
check_each ((name, max_value) ∷ limits) u count instance w =
    raise_if_exceeded
      (is_exceeded (is_count name) max_value (current_value name u w) count instance)
      (check_each limits u count instance w)

-- `check_object_limit` for a user, by `enable_admin_limits`
unfoldable pub check_user_limit :
    Bool → ℕ → Bool → Selector → ℕ → Option Instance → World → Limits → Result Error ⊤
check_user_limit enabled u is_superuser selector count instance w limits =
    if not enabled || is_superuser
    then ok tt
    else check_each (user_limits u selector limits) u count instance w

-- The rows of `DomainObjectLimit`: the domain, the name and the maximum
abbrev pub DomainLimits : Type 0
DomainLimits = List (ℕ × DomainLimitName × ℤ)

abbrev pub domain_name_code : DomainLimitName → ℕ
domain_name_code DomainLimitName.domain_aliases = 0
domain_name_code DomainLimitName.mailboxes = 1
domain_name_code DomainLimitName.mailbox_aliases = 2
domain_name_code DomainLimitName.domain_admins = 3

-- `domainobjectlimit_set.filter(name=object_type)` and the loop; each is of type "count"
unfoldable pub check_each_domain : DomainLimits → ℕ → DomainLimitName → ℕ → World → Result Error ⊤
check_each_domain [] d wanted count w = ok tt
check_each_domain ((d', name, max_value) ∷ limits) d wanted count w =
    let rest = check_each_domain limits d wanted count w in
    if d' == d && nat_eqb (domain_name_code name) (domain_name_code wanted)
    then raise_if_exceeded (is_exceeded true max_value (domain_current_value name d w) count none)
        rest
    else rest

-- `check_object_limit` for a domain, by `enable_domain_limits`
unfoldable pub check_domain_limit :
    Bool → ℕ → DomainLimitName → ℕ → World → DomainLimits → Result Error ⊤
check_domain_limit enabled d wanted count w limits =
    if not enabled then ok tt else check_each_domain limits d wanted count w

-- `create_user_limits`: the defaults of the templates go to users that nobody or a super user made
abbrev pub create_each : List LimitName → ℕ → Bool → (LimitName → ℤ) → Limits → Limits
create_each [] u by_superuser defaults limits = limits
create_each (name ∷ names) u by_superuser defaults limits =
    create_each names u by_superuser defaults
      (insert (limit_key u name) (if by_superuser then defaults name else pos 0) limits)

unfoldable pub create_user_limits : ℕ → Option Bool → (LimitName → ℤ) → Limits → Limits
create_user_limits u none defaults limits = create_each user_limit_templates u true defaults limits
create_user_limits u (some by_superuser) defaults limits =
    create_each user_limit_templates u by_superuser defaults limits

abbrev pub create_each_domain :
    List DomainLimitName → ℕ → (DomainLimitName → ℤ) → DomainLimits → DomainLimits
create_each_domain [] d defaults limits = limits
create_each_domain (name ∷ names) d defaults limits =
    create_each_domain names d defaults (limits ++ (d, name, defaults name) ∷ [])

unfoldable pub create_domain_limits : ℕ → (DomainLimitName → ℤ) → DomainLimits → DomainLimits
create_domain_limits d defaults limits = create_each_domain domain_limit_templates d defaults limits

-- `move_resource`, once the owner is found: its key, whether it is a super user, and its role
unfoldable pub move_resource : ℕ → Bool → Text → ℕ → Limits → Result Error Limits
move_resource owner is_superuser role u limits =
    if is_superuser || not (role == codes "Resellers")
    then ok limits
    else move_pool_resource owner u limits

-- the handler `move_pool_resource`: the account's owner, if it has one, and the account's new role
unfoldable pub role_changed : Option (ℕ × Bool × Text) → ℕ → Text → Limits → Result Error Limits
role_changed none account role limits = ok limits
role_changed (some (owner, is_superuser, owner_role)) account role limits =
    if is_superuser || not (owner_role == codes "Resellers")
    then ok limits
    else if role == codes "DomainAdmins" || role == codes "Resellers"
    then ok limits
    else move_pool_resource owner account limits

-- `user_can_set_role`; `exceeded` is the answer of the limit on domain administrators
abbrev pub can_still_set : Result Error Bool → Bool → Text → Option Text → Result Error Bool
can_still_set (err e) is_superuser role account_role = if is_superuser then ok true else err e
can_still_set (ok exceeded) is_superuser role account_role =
    if is_superuser || not exceeded
    then ok true
    else elim account_role [ none ↦ ok false | some r ↦ ok (r == role) ]

abbrev pub domain_admins_exceeded : ℕ → World → Limits → Result Error Bool
domain_admins_exceeded u w limits = do
  max_value ← or_raise (lookup (limit_key u LimitName.domain_admins) limits) does_not_exist
  is_exceeded true max_value (current_value LimitName.domain_admins u w) 1 none

unfoldable pub user_can_set_role :
    Bool → ℕ → Bool → Text → Option Text → World → Limits → Result Error Bool
user_can_set_role enabled u is_superuser role account_role w limits =
    if not enabled || not (role == codes "DomainAdmins")
    then ok true
    else can_still_set (domain_admins_exceeded u w limits) is_superuser role account_role
