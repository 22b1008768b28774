-- ===== src/Policyd/Alarms.antt =====
-- Alarms: modoboa/admin/models/alarm.py, create_alarm and the reset coroutines of
-- modoboa/policyd/core.py. The tables that they read and write are the state.
pub mod Reset
use mrt_post_office.Prelude.{
  ℕ, zero, suc, ◌+◌, ◌≡◌, refl, Bool, true, false, ◌&&◌, Option, none, some, List, [], ◌∷◌, ◌++◌,
  map, Text, arith, if◌then◌else◌, ◌==◌, text_eq, nat_eq, any,
}
use mrt_post_office.Prelude.Chars.{codes}
use mrt_post_office.Prelude.Result.{Result, ok, err, ◌>>=◌, or_raise}
use mrt_post_office.EmailUtils.Split.{split_mailbox}
use mrt_post_office.Policyd.Redis.{Redis}
use mrt_post_office.Policyd.Policies.{LimitType, domain, account}
use mrt_post_office.Policyd.Limits.{hset_all}

-- ALARM_OPENED and ALARM_CLOSED
pub data Status : Type 0 where
  opened closed : Status

-- A mailbox is named by its local part and its domain, both unique together.
pub record Alarm : Type 0 where
  pub on_domain : Option Text
  pub on_mailbox : Option (Text × Text)
  pub created : ℕ
  pub closed_at : Option ℕ
  pub status : Status
  pub title : Text
  pub internal_name : Text

abbrev pub is_opened : Alarm → Bool
is_opened a = elim a.status [ opened ↦ true | closed ↦ false ]

-- `Alarm.close`
unfoldable pub close : ℕ → Alarm → Alarm
close now a = record a { status = closed; closed_at = some now }

-- `Alarm.reopen`
unfoldable pub reopen : Alarm → Alarm
reopen a = record a { status = opened; closed_at = none }

pub record DomainRow : Type 0 where
  pub name : Text
  pub message_limit : Option ℕ

pub record MailboxRow : Type 0 where
  pub address : Text
  pub domain_name : Text
  pub message_limit : Option ℕ

pub record Database : Type 0 where
  pub domains : List DomainRow
  pub mailboxes : List MailboxRow
  pub alarms : List Alarm

pub data Error : Type 0 where
  does_not_exist : Error

abbrev pub find_domain : Text → List DomainRow → Option DomainRow
find_domain name [] = none
find_domain name (d ∷ domains) = if d.name == name then some d else find_domain name domains

abbrev pub find_mailbox : Text → Option Text → List MailboxRow → Option MailboxRow
find_mailbox address none mailboxes = none
find_mailbox address (some name) [] = none
find_mailbox address (some name) (m ∷ mailboxes) =
    if m.address == address && m.domain_name == name
    then some m
    else find_mailbox address (some name) mailboxes

abbrev pub new_alarm : ℕ → Option Text → Option (Text × Text) → Alarm
new_alarm now on_domain on_mailbox = record {
  on_domain = on_domain;
  on_mailbox = on_mailbox;
  created = now;
  closed_at = none;
  status = opened;
  title = codes "Daily sending limit reached";
  internal_name = codes "sending_limit";
}

-- the row is found before the alarm is created for it
unfoldable pub create_alarm : ℕ → LimitType → Text → Database → Result Error Database
create_alarm now domain name db = do
  d ← or_raise (find_domain name db.domains) does_not_exist
  ok (record db { alarms = db.alarms ++ new_alarm now (some d.name) none ∷ [] })
create_alarm now account name db = do
  let (localpart, domain_name) = split_mailbox name
  m ← or_raise (find_mailbox localpart domain_name db.mailboxes) does_not_exist
  ok (record db {
    alarms = db.alarms ++ new_alarm now (some m.domain_name) (some (m.address, m.domain_name)) ∷ [];
  })

-- the rows with `message_limit__isnull=False`, as the keys and limits that are written to Redis
abbrev pub domain_limits : List DomainRow → List (Text × ℕ)
domain_limits [] = []
domain_limits (d ∷ domains) = elim d.message_limit [
  | none ↦ domain_limits domains
  | some limit ↦ (d.name, limit) ∷ domain_limits domains
]

abbrev pub mailbox_limits : List MailboxRow → List (Text × ℕ)
mailbox_limits [] = []
mailbox_limits (m ∷ mailboxes) = elim m.message_limit [
  | none ↦ mailbox_limits mailboxes
  | some limit ↦ (m.address ++ b'@' ∷ m.domain_name, limit) ∷ mailbox_limits mailboxes
]

-- `domain__in=qset`
abbrev pub in_domains : Option Text → List DomainRow → Bool
in_domains none domains = false
in_domains (some name) domains = any (λ (limit : Text × ℕ). limit.0 == name) (domain_limits domains)

-- `mailbox__in=qset`
abbrev pub in_mailboxes : Option (Text × Text) → List MailboxRow → Bool
in_mailboxes none mailboxes = false
in_mailboxes (some (address, name)) mailboxes =
    any (λ (limit : Text × ℕ). limit.0 == (address ++ b'@' ∷ name)) (mailbox_limits mailboxes)

-- `.filter(internal_name="limit_reached", ..., status=ALARM_OPENED).update(status, closed)`
abbrev pub close_if : Bool → ℕ → Alarm → Alarm
close_if selected now a =
    if a.internal_name == codes "limit_reached" && selected && is_opened a then close now a else a

unfoldable pub get_domains_to_reset : ℕ → Database → List (Text × ℕ) × Database
unfolding close
get_domains_to_reset now db = (
  domain_limits db.domains,
  record db { alarms = map (λ a. close_if (in_domains a.on_domain db.domains) now a) db.alarms },
)

unfoldable pub get_mailboxes_to_reset : ℕ → Database → List (Text × ℕ) × Database
unfolding close
get_mailboxes_to_reset now db = (
  mailbox_limits db.mailboxes,
  record db {
    alarms = map (λ a. close_if (in_mailboxes a.on_mailbox db.mailboxes) now a) db.alarms;
  },
)

-- Both loops; that the coroutine schedules itself again is not part of the state.
unfoldable pub reset_counters : (r : Redis) → ℕ → Database → r.Hash → Database × r.Hash
unfolding get_domains_to_reset get_mailboxes_to_reset
reset_counters r now db h =
    let (domains, db1) = get_domains_to_reset now db in
    let h1 = hset_all r domains h in
    let (mailboxes, db2) = get_mailboxes_to_reset now db1 in (db2, hset_all r mailboxes h1)
