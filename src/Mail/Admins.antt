-- ===== src/Mail/Admins.antt =====
-- `Domain.add_admin` and `Domain.remove_admin` of modoboa/admin/models/domain.py.
use mrt_post_office.Prelude.{
  ℕ, ◌≡◌, Bool, true, false, not, ◌||◌, some, List, [], ◌∷◌, ◌++◌, arith, if◌then◌else◌, ⊤, nat_eq,
  any, ap, sym, ◌∙◌, ◌&&◌, ◌==◌, refl,
}
use mrt_post_office.Prelude.Result.{Result, ok, err, ◌>>=◌, >>=-eq-ok, ok_injective}
use mrt_post_office.Permissions.Table.{
  user, domain, mailbox, alias, Object, Table, Key, key_eq, object_eq, find,
}
use mrt_post_office.Permissions.Grant.{grant_access_to_object, ungrant_access_to_object}
use mrt_post_office.Permissions.Lookup.{find-grant_access_to_object, key_parts}
use mrt_post_office.Permissions.Grant.{Error as PermissionError}
use mrt_post_office.Limits.World.{World, DomainLimitName}
use mrt_post_office.Limits.Limit.{Error}
use mrt_post_office.Limits.Handlers.{DomainLimits, check_domain_limit}

-- A mailbox, its user, and `mb.user.has_perm("admin.add_domain")`
pub record MailboxRow : Type 0 where
  pub pk : ℕ
  pub user_pk : ℕ
  pub may_add_domain : Bool

pub record AliasRow : Type 0 where
  pub pk : ℕ
  pub internal : Bool

pub record Domain : Type 0 where
  pub pk : ℕ
  pub mailbox_set : List MailboxRow
  pub alias_set : List AliasRow

-- the objects of both loops: a mailbox and its account unless the account may add domains
unfoldable pub mailbox_objects : List MailboxRow → List Object
mailbox_objects [] = []
mailbox_objects (mb ∷ mailboxes) =
    if mb.may_add_domain
    then mailbox_objects mailboxes
    else record { content_type = mailbox; object_id = mb.pk }
      ∷ record { content_type = user; object_id = mb.user_pk }
      ∷ mailbox_objects mailboxes

-- `alias_set.filter(internal=False)`, or all of them
unfoldable pub alias_objects : Bool → List AliasRow → List Object
alias_objects with_internal [] = []
alias_objects with_internal (al ∷ aliases) =
    if with_internal || not al.internal
    then record { content_type = alias; object_id = al.pk } ∷ alias_objects with_internal aliases
    else alias_objects with_internal aliases

abbrev pub all_objects : Bool → Domain → List Object
all_objects with_internal d =
    record { content_type = domain; object_id = d.pk } ∷ mailbox_objects d.mailbox_set
    ++ alias_objects with_internal d.alias_set

unfoldable pub grant_each : List ℕ → ℕ → List Object → Table → Table
grant_each superusers account [] rows = rows
grant_each superusers account (o ∷ objects) rows =
    grant_each superusers account objects (grant_access_to_object superusers account o false rows)

-- The limit on administrators is checked before anything is granted.
unfoldable pub add_admin : Bool → List ℕ → ℕ → Domain → World → DomainLimits → Result Error Table
add_admin enabled superusers account d w limits = do
  _ ← check_domain_limit enabled d.pk DomainLimitName.domain_admins 1 w limits
  ok (grant_each superusers account (all_objects false d) w.accesses)

-- what was taken away before an exception stays taken away
unfoldable pub ungrant_each : List ℕ → ℕ → List Object → Table → Result PermissionError ⊤ × Table
ungrant_each superusers account [] rows = (ok tt, rows)
ungrant_each superusers account (o ∷ objects) rows =
    let (done, rows') = ungrant_access_to_object superusers o (some account) rows in
    let rest = ungrant_each superusers account objects rows' in
    elim done [ ok _ ↦ rest | err e ↦ (err e, rows') ]

unfoldable pub remove_admin : List ℕ → ℕ → Domain → Table → Result PermissionError ⊤ × Table
remove_admin superusers account d rows = ungrant_each superusers account (all_objects true d) rows

-- The objects that a new administrator has access to: the domain, its mailboxes and their accounts
-- unless the account may add domains, and its aliases that are not internal.
abbrev pub is_administrated : Domain → Object → Bool
is_administrated d o =
    record { content_type = domain; object_id = d.pk } == o
    || (any
          (λ (mb : MailboxRow).
            not mb.may_add_domain
            && (record { content_type = mailbox; object_id = mb.pk } == o
                || record { content_type = user; object_id = mb.user_pk } == o))
          d.mailbox_set
        || any
            (λ (al : AliasRow).
              not al.internal && record { content_type = alias; object_id = al.pk } == o)
            d.alias_set)

abbrev is_among : Object → List Object → Bool
is_among o objects = any (λ p. p == o) objects

is_among-append :
    (o : Object) (a b : List Object) → is_among o (a ++ b) ≡ (is_among o a || is_among o b)
is_among-append o [] b = refl
is_among-append o (x ∷ a) b = ground (arith, is_among-append o a b)

is_among-mailbox_objects :
    (o : Object) (mailboxes : List MailboxRow)
    → is_among o (mailbox_objects mailboxes)
      ≡ any
          (λ (mb : MailboxRow).
            not mb.may_add_domain
            && (record { content_type = mailbox; object_id = mb.pk } == o
                || record { content_type = user; object_id = mb.user_pk } == o))
          mailboxes
unfolding mailbox_objects
is_among-mailbox_objects o [] = refl
is_among-mailbox_objects o (mb ∷ mailboxes) = ground (arith, is_among-mailbox_objects o mailboxes)

is_among-alias_objects :
    (o : Object) (aliases : List AliasRow)
    → is_among o (alias_objects false aliases)
      ≡ any
          (λ (al : AliasRow).
            not al.internal && record { content_type = alias; object_id = al.pk } == o)
          aliases
unfolding alias_objects
is_among-alias_objects o [] = refl
is_among-alias_objects o (al ∷ aliases) = ground (arith, is_among-alias_objects o aliases)

both_tests : {a b c d : Bool} → a ≡ b → c ≡ d → (a || c) ≡ (b || d)
both_tests e f = cc

is_among-all_objects :
    (d : Domain) (o : Object) → is_among o (all_objects false d) ≡ is_administrated d o
is_among-all_objects d o =
    let mailboxes = mailbox_objects d.mailbox_set in
    let aliases = alias_objects false d.alias_set in
    let o_domain : Object = record { content_type = domain; object_id = d.pk } in
    ap (λ b. o_domain == o || b)
      (is_among-append o mailboxes aliases
        ∙ both_tests (is_among-mailbox_objects o d.mailbox_set)
            (is_among-alias_objects o d.alias_set))

find-grant :
    (superusers : List ℕ) (u : ℕ) (o : Object) (rows : Table) (k : Key)
    → find k (grant_access_to_object superusers u o false rows)
      ≡ (if u == k.account && o == k.object then some false else find k rows)
find-grant superusers u o rows k =
    ground (arith, find-grant_access_to_object superusers u o false rows k, key_parts u o k)

find-grant_each :
    (superusers : List ℕ) (u : ℕ) (objects : List Object) (rows : Table) (k : Key)
    → find k (grant_each superusers u objects rows)
      ≡ (if u == k.account && is_among k.object objects then some false else find k rows)
unfolding grant_each
find-grant_each superusers u [] rows k = ground arith
find-grant_each superusers u (o ∷ objects) rows k =
    let rows' : Table = grant_access_to_object superusers u o false rows in
    ground (arith, find-grant_each superusers u objects rows' k, find-grant superusers u o rows k)

-- A new administrator that passes the check of the limit has a row for the domain, for each of
-- its mailboxes and their accounts unless the account may add domains, and for each of its
-- aliases that is not internal, none of them as an owner; and all else in the table is as it was.
pub add_admin-find :
    (enabled : Bool) (superusers : List ℕ) (account : ℕ) (d : Domain) (w : World)
    (limits : DomainLimits) (rows : Table) (k : Key)
    → add_admin enabled superusers account d w limits ≡ ok rows
    → find k rows ≡ (
        if account == k.account && is_administrated d k.object
        then some false
        else find k w.accesses)
unfolding add_admin
add_admin-find enabled superusers account d w limits rows k h =
    let (_, _, e) =
      >>=-eq-ok (check_domain_limit enabled d.pk DomainLimitName.domain_admins 1 w limits) _ h in
    ap (find k) (sym (ok_injective e))
    ∙ find-grant_each superusers account (all_objects false d) w.accesses k
    ∙ ap (λ b. if account == k.account && b then some false else find k w.accesses)
        (is_among-all_objects d k.object)
