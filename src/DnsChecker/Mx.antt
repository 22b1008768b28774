-- ===== src/DnsChecker/Mx.antt =====
-- MXRecordManager.get_or_create_for_domain and DNSChecker.check_valid_mx. Python's `ipaddress` and
-- the DNS queries are arguments.
pub mod Kept
pub mod OpenAlarms
use mrt_post_office.Prelude.{
  ℕ, ◌+◌, Bool, true, false, not, ◌&&◌, ◌||◌, ◌≡◌, ◌↔◌, Option, none, some, List, [], ◌∷◌, ◌++◌,
  map, Text, ltb, if◌then◌else◌, ◌==◌, nat_eq, text_eq, Eq, filter, any, arith,
}
use mrt_post_office.Prelude.Chars.{codes, strip}
use mrt_post_office.Prelude.Result.{Result, ok, err, ◌>>=◌, or_raise}
use mrt_post_office.Policyd.Alarms.{Alarm, opened, is_opened, close}

pub record Mx : Type 0 where
  pub pk : ℕ
  pub name : Text
  pub address : Text
  pub managed : Bool
  pub updated : ℕ

-- `updated__gt=now`
abbrev is_fresh : ℕ → Mx → Bool
is_fresh now mx = ltb now mx.updated

-- `lib.get_domain_mx_list` is the argument `found`.
abbrev new_rows : (pk until : ℕ) → List (Text × Text) → List Mx
new_rows pk until [] = []
new_rows pk until ((name, address) ∷ found) =
    record { pk = pk; name = strip b'.' name; address = address; managed = false; updated = until }
    ∷ new_rows (pk + 1) until found

-- The records that are used, and the rows: the old ones are deleted where none is fresh. The new
-- rows get the keys from `next_pk` on.
unfoldable pub get_or_create_for_domain :
    (now ttl next_pk : ℕ) → List (Text × Text) → List Mx → List Mx × List Mx
get_or_create_for_domain now ttl next_pk found rows =
    if any (is_fresh now) rows
    then (filter (is_fresh now) rows, rows)
    else let created = new_rows next_pk (now + ttl) found in (created, created)

pub data Error : Type 0 where
  value_error multiple_objects_returned : Error

abbrev pub is_open_alarm : Text → Alarm → Bool
is_open_alarm internal_name a = a.internal_name == internal_name && is_opened a

abbrev pub open_alarms : Text → List Alarm → List Alarm
open_alarms internal_name alarms = filter (is_open_alarm internal_name) alarms

-- `domain.alarms.create(...)`
abbrev pub new_domain_alarm : (now : ℕ) → (domain title internal_name : Text) → Alarm
new_domain_alarm now domain title internal_name = record {
  on_domain = some domain;
  on_mailbox = none;
  created = now;
  closed_at = none;
  status = opened;
  title = title;
  internal_name = internal_name;
}

-- by the open alarms of the name
abbrev pub get_or_create : List Alarm → Alarm → List Alarm → Result Error (List Alarm × Bool)
get_or_create [] new alarms = ok (alarms ++ new ∷ [], true)
get_or_create (a ∷ []) new alarms = ok (alarms, false)
get_or_create (a ∷ b ∷ more) new alarms = err multiple_objects_returned

-- `domain.alarms.get_or_create(internal_name=..., status=ALARM_OPENED, defaults={"title": ...})`:
-- the rows, and whether one was created
abbrev pub open_alarm :
    (now : ℕ) → (domain title internal_name : Text) → List Alarm → Result Error (List Alarm × Bool)
open_alarm now domain title internal_name alarms =
    get_or_create (open_alarms internal_name alarms)
      (new_domain_alarm now domain title internal_name) alarms

-- `.filter(internal_name=..., status=ALARM_OPENED).update(status=ALARM_CLOSED, closed=now)`
unfoldable pub close_alarms : (now : ℕ) → Text → List Alarm → List Alarm
unfolding close
close_alarms now internal_name alarms =
    map (λ a. if is_open_alarm internal_name a then close now a else a) alarms

abbrev pub no_mx : Text
no_mx = codes "domain_has_no_mx"

abbrev pub invalid_mx : Text
invalid_mx = codes "domain_invalid_mx"

-- `f"{mx.name} ({mx.address})"`
abbrev pub describe : Mx → Text
describe mx = mx.name ++ codes " (" ++ mx.address ++ codes ")"

-- `", ".join(names)`
abbrev pub join : List Text → Text
join [] = []
join (name ∷ []) = name
join (name ∷ next ∷ names) = name ++ codes ", " ++ join (next ∷ names)

module _ {Ip Net : Type 0} (ip_address : Text → Option Ip) (◌in_net◌ : Ip → Net → Bool) where
  abbrev pub parse_addresses : List Mx → Result Error (List (Mx × Ip))
  parse_addresses [] = ok []
  parse_addresses (mx ∷ mx_list) = do
    ip ← or_raise (ip_address mx.address) value_error
    mxs ← parse_addresses mx_list
    ok ((mx, ip) ∷ mxs)

  abbrev pub is_valid : List Net → Ip → Bool
  is_valid valid_mxs ip = any (λ net. ◌in_net◌ ip net) valid_mxs

  -- The rows with `managed` set where an address is in a subnet.
  abbrev pub mark_managed : List Net → List (Mx × Ip) → List Mx
  mark_managed valid_mxs [] = []
  mark_managed valid_mxs ((mx, ip) ∷ mxs) =
      (if is_valid valid_mxs ip then record mx { managed = true } else mx)
      ∷ mark_managed valid_mxs mxs

  -- the alarms of a domain whose records are in none of the subnets, and the alert
  abbrev pub open_invalid :
      (now : ℕ) → (domain : Text) → List Mx → List Alarm → Result Error (List Alarm × List Text)
  open_invalid now domain mx_list alarms = do
    let names = join (map describe mx_list)
    raised ← open_alarm now domain (codes "Invalid MX record: " ++ names) invalid_mx alarms
    ok (
      raised.0,
      if raised.1
          then (codes "MX record for domain " ++ domain ++ codes " is invalid: " ++ names) ∷ []
          else [],
    )

  -- the alarms of a domain with records, where subnets are configured, and the alerts
  abbrev pub check_subnets :
      (now : ℕ)
      → (domain : Text) → List Net
      → List Mx
      → List (Mx × Ip)
      → List Alarm
      → Result Error (List Alarm × List Text)
  check_subnets now domain [] mx_list mxs alarms = ok (alarms, [])
  check_subnets now domain (net ∷ nets) mx_list mxs alarms =
      if any (λ (mx : Mx × Ip). is_valid (net ∷ nets) mx.1) mxs
      then ok (close_alarms now invalid_mx alarms, [])
      else open_invalid now domain mx_list alarms

  abbrev pub check_parsed :
      (now : ℕ)
      → (domain : Text) → List Net
      → List Mx
      → List (Mx × Ip)
      → List Alarm
      → Result Error (List Alarm × List Text)
  check_parsed now domain valid_mxs mx_list [] alarms = do
    raised ← open_alarm now domain (codes "Domain has no MX record") no_mx alarms
    ok (
      raised.0,
      if raised.1 then (codes "Domain " ++ domain ++ codes " has no MX record") ∷ [] else [],
    )
  check_parsed now domain valid_mxs mx_list (mx ∷ mxs) alarms =
      check_subnets now domain valid_mxs mx_list (mx ∷ mxs) (close_alarms now no_mx alarms)

  -- The MX records after the check, the alarms, and the alerts.
  unfoldable pub check_valid_mx :
      (now : ℕ)
      → (domain : Text) → List Net
      → List Mx
      → List Alarm
      → Result Error (List Mx × List Alarm × List Text)
  check_valid_mx now domain valid_mxs mx_list alarms = do
    mxs ← parse_addresses mx_list
    checked ← check_parsed now domain valid_mxs mx_list mxs alarms
    ok (mark_managed valid_mxs mxs, checked.0, checked.1)
