-- ===== src/Limits/Limit.antt =====
-- `UserObjectLimit`, `DomainObjectLimit` and `ObjectLimitMixin` of modoboa/limits/models.py.
use mrt_post_office.Prelude.{
  ℕ, Bool, true, false, not, ◌&&◌, Option, none, some, List, [], ◌∷◌, if◌then◌else◌, ◌==◌, nat_eq,
  any, length, filter, get_or, is_some,
}
use mrt_post_office.Prelude.Int.{ℤ, pos, negsuc, ◌+ℤ◌, ◌-ℤ◌, ltb_ℤ, eqb_ℤ}
use mrt_post_office.Prelude.Result.{Result, ok, err}
use mrt_post_office.Permissions.Table.{
  ContentType, user, domain, Table, content_type_eq, key, key_eq, find,
}
use mrt_post_office.Limits.World.{
  LimitName, quota, DomainLimitName, domain_aliases, content_type, UserRow, DomainRow, World,
  is_domain_admin,
}

-- The exceptions of modoboa/limits/lib.py, those of a query for one row, and of an attribute of None
pub data Error : Type 0 where
  limit_reached unsufficient_resource bad_limit_value does_not_exist : Error
  multiple_objects attribute_error : Error

-- `filter(user=u, is_owner=True, content_type=ct)`: the keys of the objects
abbrev pub owned_ids : ℕ → ContentType → Table → List ℕ
owned_ids u ct [] = []
owned_ids u ct (row ∷ rows) =
    if row.at_key.account == u && row.at_key.object.content_type == ct && row.is_owner
    then row.at_key.object.object_id ∷ owned_ids u ct rows
    else owned_ids u ct rows

abbrev pub has_id : List ℕ → ℕ → Bool
has_id ids n = any (λ m. m == n) ids

-- `filter(pk__in=ids).aggregate(total=Sum("quota"))`, 0 where there is no row
abbrev pub sum_quota : List ℕ → List DomainRow → ℤ
sum_quota ids [] = pos 0
sum_quota ids (d ∷ rows) =
    if has_id ids d.pk then d.quota_value +ℤ sum_quota ids rows else sum_quota ids rows

-- `UserObjectLimit.current_value`
unfoldable pub current_value : LimitName → ℕ → World → ℤ
current_value LimitName.domain_admins u w =
    pos (
      length (filter (λ r. has_id (owned_ids u user w.accesses) r.pk && is_domain_admin r) w.users))
current_value quota u w = sum_quota (owned_ids u domain w.accesses) w.domain_rows
current_value name u w = pos (length (owned_ids u (content_type name) w.accesses))

-- `Domain.admins`
abbrev pub is_admin_of : ℕ → Table → UserRow → Bool
is_admin_of d rows u =
    not u.is_superuser
    && is_some (find (key u.pk (record { content_type = domain; object_id = d })) rows)

-- `DomainObjectLimit.current_value`
unfoldable pub domain_current_value : DomainLimitName → ℕ → World → ℤ
domain_current_value domain_aliases d w = pos (length (filter (λ n. n == d) w.alias_domains))
domain_current_value DomainLimitName.mailboxes d w =
    pos (length (filter (λ n. n == d) w.mailbox_domains))
domain_current_value DomainLimitName.mailbox_aliases d w =
    pos (length (filter (λ (a : ℕ × Bool). a.0 == d && not a.1) w.aliases))
domain_current_value DomainLimitName.domain_admins d w =
    pos (length (filter (is_admin_of d w.accesses) w.users))

-- an instance with the field that a "sum" limit adds up: its value, and the one loaded before
pub record Instance : Type 0 where
  pub value : ℤ
  pub loaded : Option ℤ

-- the branch of a limit of type "count"
abbrev pub count_exceeded : ℤ → ℤ → ℕ → Bool
count_exceeded max_value current count =
    if eqb_ℤ max_value (negsuc 0) then false else ltb_ℤ max_value (current +ℤ pos count)

abbrev pub sum_exceeded : ℤ → ℤ → Option Instance → Result Error Bool
sum_exceeded max_value current none = ok false
sum_exceeded max_value current (some i) =
    if eqb_ℤ max_value (pos 0)
    then ok false
    else if eqb_ℤ i.value (pos 0)
    then err bad_limit_value
    else ok (ltb_ℤ max_value (current +ℤ (i.value -ℤ get_or i.loaded (pos 0))))

-- `ObjectLimitMixin.is_exceeded`, by the limit's type, maximum and current value
unfoldable pub is_exceeded : Bool → ℤ → ℤ → ℕ → Option Instance → Result Error Bool
is_exceeded true max_value current count i = ok (count_exceeded max_value current count)
is_exceeded false max_value current count i = sum_exceeded max_value current i
