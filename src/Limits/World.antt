-- ===== src/Limits/World.antt =====
-- The rows that limits are computed from: the limits themselves (modoboa/limits/models.py), with the
-- templates of modoboa/limits/constants.py, and the objects that they count.
use mrt_post_office.Prelude.{
  ℕ, ◌≡◌, ◌↔◌, Bool, true, false, ◌&&◌, List, [], ◌∷◌, Text, arith, Eq, ◌==◌, nat_eqb, nat_eq,
  text_eq, any,
}
use mrt_post_office.Prelude.Int.{ℤ}
use mrt_post_office.Prelude.Chars.{codes}
use mrt_post_office.Prelude.Dict.{Dict}
use mrt_post_office.Permissions.Table.{
  ContentType, user, domain, domain_alias, mailbox, alias, Table,
}

-- The keys of DEFAULT_USER_LIMITS
pub data LimitName : Type 0 where
  domains domain_aliases mailboxes mailbox_aliases domain_admins quota : LimitName

-- Those of DEFAULT_DOMAIN_LIMITS
pub data DomainLimitName : Type 0 where
  domain_aliases mailboxes mailbox_aliases domain_admins : DomainLimitName

-- `get_user_limit_templates` and `get_domain_limit_templates`, in their order
abbrev pub user_limit_templates : List LimitName
user_limit_templates =
    domains ∷ LimitName.domain_aliases ∷ LimitName.mailboxes ∷ LimitName.mailbox_aliases
    ∷ LimitName.domain_admins ∷ quota ∷ []

abbrev pub domain_limit_templates : List DomainLimitName
domain_limit_templates =
    DomainLimitName.domain_aliases ∷ DomainLimitName.mailboxes ∷ DomainLimitName.mailbox_aliases
    ∷ DomainLimitName.domain_admins ∷ []

-- `content_type` of a template
unfoldable pub content_type : LimitName → ContentType
content_type domains = domain
content_type LimitName.domain_aliases = domain_alias
content_type LimitName.mailboxes = mailbox
content_type LimitName.mailbox_aliases = alias
content_type LimitName.domain_admins = user
content_type quota = domain

-- Only the quota template has the type "sum"; the others count.
abbrev pub is_count : LimitName → Bool
is_count quota = false
is_count _ = true

abbrev pub name_code : LimitName → ℕ
name_code domains = 0
name_code LimitName.domain_aliases = 1
name_code LimitName.mailboxes = 2
name_code LimitName.mailbox_aliases = 3
name_code LimitName.domain_admins = 4
name_code quota = 5

-- What is unique in the table of user limits
pub record LimitKey : Type 0 where
  pub owner : ℕ
  pub name : LimitName

abbrev pub limit_key : ℕ → LimitName → LimitKey
limit_key u name = record { owner = u; name = name }

unfoldable pub same_limit_key : LimitKey → LimitKey → Bool
same_limit_key a b = nat_eqb a.owner b.owner && nat_eqb (name_code a.name) (name_code b.name)

pub same_limit_key_iff : (a b : LimitKey) → (same_limit_key a b ≡ true) ↔ (a ≡ b)
unfolding same_limit_key
same_limit_key_iff a b = ground arith

instance abbrev pub limit_key_eq : Eq LimitKey
limit_key_eq = record { equals = same_limit_key; equals_iff = same_limit_key_iff }

-- `max_value` of each row; -1 is no limit
abbrev pub Limits : Type 0
Limits = Dict LimitKey ℤ

pub record UserRow : Type 0 where
  pub pk : ℕ
  pub is_superuser : Bool
  pub groups : List Text

pub record DomainRow : Type 0 where
  pub pk : ℕ
  pub quota_value : ℤ

-- The objects, with the columns that the limits look at
pub record World : Type 0 where
  pub accesses : Table
  pub users : List UserRow
  pub domain_rows : List DomainRow
  -- the domain of each domain alias, of each mailbox and of each alias, with its `internal` flag
  pub alias_domains : List ℕ
  pub mailbox_domains : List ℕ
  pub aliases : List (ℕ × Bool)

abbrev pub is_domain_admin : UserRow → Bool
is_domain_admin u = any (λ group. group == codes "DomainAdmins") u.groups
