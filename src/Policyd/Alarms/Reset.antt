-- ===== src/Policyd/Alarms/Reset.antt =====
-- What a reset does to the counters, and what it leaves of the alarms.
use mrt_post_office.Prelude.{
  ℕ, ◌+◌, ◌≡◌, refl, subst, sym, ◌∙◌, Bool, false, ◌&&◌, none, some, List, [], ◌∷◌, ◌++◌, map, Text,
  arith, if◌then◌else◌, ◌==◌, text_eq, ==_iff, Bool-cases, Option-cases, inl, inr, Option, is_some,
  ap,
}
use mrt_post_office.Prelude.Chars.{codes}
use mrt_post_office.Prelude.Int.{pos}
use mrt_post_office.Prelude.Dict.{lookup, IsDistinct}
use mrt_post_office.Prelude.Result.{ok}
use mrt_post_office.EmailUtils.Split.{split_mailbox}
use mrt_post_office.Policyd.Redis.{Redis}
use mrt_post_office.Policyd.Policies.{LimitType, domain, account}
use mrt_post_office.Policyd.Limits.{hset_all, hget-hset_all}
use mrt_post_office.Policyd.Alarms.{
  Alarm, Database, DomainRow, MailboxRow, is_opened, close, close_if, new_alarm, create_alarm,
  in_domains, in_mailboxes, domain_limits, mailbox_limits, find_domain, find_mailbox,
  reset_counters,
}

-- The limit of the domain of a name, and that of the mailbox of an address
abbrev pub limit_of_domain : Text → List DomainRow → Option ℕ
limit_of_domain key [] = none
limit_of_domain key (d ∷ domains) =
    if d.name == key && is_some d.message_limit
    then d.message_limit
    else limit_of_domain key domains

abbrev pub limit_of_mailbox : Text → List MailboxRow → Option ℕ
limit_of_mailbox key [] = none
limit_of_mailbox key (m ∷ mailboxes) =
    if (m.address ++ codes "@" ++ m.domain_name) == key && is_some m.message_limit
    then m.message_limit
    else limit_of_mailbox key mailboxes

lookup-domain_limits :
    (key : Text) (domains : List DomainRow)
    → lookup key (domain_limits domains) ≡ limit_of_domain key domains
lookup-domain_limits key [] = refl
lookup-domain_limits key (d ∷ domains) = elim (Option-cases d.message_limit) [
  | inl e ↦ rw e (ground (arith, lookup-domain_limits key domains))
  | inr (limit, e) ↦ rw e (ground (arith, lookup-domain_limits key domains))
]

-- `address@domain`, in both ways of joining it
joined_key : (address name : Text) → address ++ codes "@" ++ name ≡ address ++ b'@' ∷ name
joined_key [] name = refl
joined_key (c ∷ address) name = ap (λ s. c ∷ s) (joined_key address name)

lookup-mailbox_limits :
    (key : Text) (mailboxes : List MailboxRow)
    → lookup key (mailbox_limits mailboxes) ≡ limit_of_mailbox key mailboxes
lookup-mailbox_limits key [] = refl
lookup-mailbox_limits key (m ∷ mailboxes) = elim (Option-cases m.message_limit) [
  | inl e ↦ rw e (ground (arith, lookup-mailbox_limits key mailboxes))
  | inr (limit, e) ↦
      rw (e, joined_key m.address m.domain_name)
        (ground (arith, lookup-mailbox_limits key mailboxes))
]

-- Where no key stands twice among the limits of the domains nor among those of the mailboxes:
-- after a reset each mailbox with a limit has its whole limit left, then each domain with one,
-- and every other key has what it had.
pub hget-reset_counters :
    (r : Redis) (now : ℕ) (db : Database) (h : r.Hash) (key : Text)
    → IsDistinct (domain_limits db.domains)
    → IsDistinct (mailbox_limits db.mailboxes)
    → r.hget key (reset_counters r now db h).1 ≡ elim (limit_of_mailbox key db.mailboxes) [
      | some limit ↦ some (pos limit)
      | none ↦ elim (limit_of_domain key db.domains) [
        | some limit ↦ some (pos limit)
        | none ↦ r.hget key h
      ]
    ]
unfolding reset_counters
hget-reset_counters r now db h key d m = ground (
  arith,
  lookup-mailbox_limits key db.mailboxes,
  lookup-domain_limits key db.domains,
  hget-hset_all r (mailbox_limits db.mailboxes) key (hset_all r (domain_limits db.domains) h) m,
  hget-hset_all r (domain_limits db.domains) key h d,
)

-- an alarm about a limit that nobody has closed
abbrev is_pending : Alarm → Bool
is_pending a = a.internal_name == codes "sending_limit" && is_opened a

abbrev pub pending : List Alarm → ℕ
pending [] = 0
pending (a ∷ alarms) = (if is_pending a then 1 else 0) + pending alarms

pending-append : (xs ys : List Alarm) → pending (xs ++ ys) ≡ pending xs + pending ys
pending-append [] ys = omega arith
pending-append (x ∷ xs) ys = omega (arith, pending-append xs ys)

is_pending-close_if :
    (b : Bool) (now : ℕ) (a : Alarm) → is_pending (close_if b now a) ≡ is_pending a
unfolding close
is_pending-close_if b now a = elim (Bool-cases (a.internal_name == codes "limit_reached")) [
  | inl e ↦
      let other : (a.internal_name == codes "sending_limit") ≡ false =
        subst (λ w. (w == codes "sending_limit") ≡ false)
          (sym ((==_iff a.internal_name (codes "limit_reached")).0 e)) refl in
      ground arith
  | inr e ↦ rw e
]

pending-map :
    (select : Alarm → Bool) (now : ℕ) (alarms : List Alarm)
    → pending (map (λ a. close_if (select a) now a) alarms) ≡ pending alarms
pending-map select now [] = refl
pending-map select now (a ∷ alarms) =
    rw (is_pending-close_if (select a) now a, pending-map select now alarms)

pending-reset :
    (r : Redis) (now : ℕ) (db : Database) (h : r.Hash)
    → pending (reset_counters r now db h).0.alarms ≡ pending db.alarms
unfolding reset_counters
pending-reset r now db h =
    pending-map (λ a. in_mailboxes a.on_mailbox db.mailboxes) now
      (map (λ a. close_if (in_domains a.on_domain db.domains) now a) db.alarms)
    ∙ pending-map (λ a. in_domains a.on_domain db.domains) now db.alarms

pending-create_alarm :
    (now : ℕ) (ltype : LimitType) (name : Text) (db : Database) {db' : Database}
    → create_alarm now ltype name db ≡ ok db'
    → pending db'.alarms ≡ pending db.alarms + 1
unfolding create_alarm
pending-create_alarm now domain name db h = elim (Option-cases (find_domain name db.domains)) [
  | inl e ↦ ground arith
  | inr (d, e) ↦ ground (arith, pending-append db.alarms (new_alarm now (some d.name) none ∷ []))
]
pending-create_alarm now account name db h =
    let (address, domain_name) = split_mailbox name in
    elim (Option-cases (find_mailbox address domain_name db.mailboxes)) [
      | inl e ↦ ground arith
      | inr (m, e) ↦ ground (
        arith,
        pending-append db.alarms
            (new_alarm now (some m.domain_name) (some (m.address, m.domain_name)) ∷ []),
      )
    ]

-- An alarm that a reached limit raises is not closed by the reset of the counters: the reset
-- leaves one more opened "sending_limit" alarm than there were before it was raised.
pub create_alarm_survives_reset :
    (r : Redis) (raised now : ℕ) (ltype : LimitType) (name : Text) (db db' : Database) (h : r.Hash)
    → create_alarm raised ltype name db ≡ ok db'
    → pending (reset_counters r now db' h).0.alarms ≡ pending db.alarms + 1
create_alarm_survives_reset r raised now ltype name db db' h e =
    pending-reset r now db' h ∙ pending-create_alarm raised ltype name db e
