-- ===== src/DnsChecker/Blacklist.antt =====
-- DNSChecker.query_dnsbl, store_dnsbl_result and the grouping of the MX records by address in
-- DNSChecker.run. Python's `ipaddress` and `socket.gethostbyname` are arguments.
pub mod Groups
pub mod Query
pub mod Silent
use mrt_post_office.Prelude.{
  ℕ, ◌+◌, ◌-◌, ◌*◌, Bool, true, false, not, ◌&&◌, Option, none, some, List, [], ◌∷◌, ◌++◌, map,
  Text, ltb, if◌then◌else◌, ◌==◌, nat_eq, text_eq, any,
}
use mrt_post_office.Prelude.Chars.{codes, split_char, decimal}
use mrt_post_office.Prelude.Dict.{Dict, lookup, insert}
use mrt_post_office.Policyd.Alarms.{Alarm}
use mrt_post_office.DnsChecker.Mx.{Mx, close_alarms, new_domain_alarm}

-- An address of `ipaddress`: its version is 4 or not, and its long form.
pub record Address : Type 0 where
  pub is_version_4 : Bool
  pub exploded : Text

-- `delim.join(parts[::-1])`, from the parts joined so far
abbrev pub join_reversed : ℕ → List Text → Text → Text
join_reversed c [] joined = joined
join_reversed c (part ∷ parts) joined = join_reversed c parts (part ++ c ∷ joined)

abbrev pub reverse_join : ℕ → List Text → Text
reverse_join c [] = []
reverse_join c (part ∷ parts) = join_reversed c parts part

-- `reverse`, the name that is asked for at a provider
unfoldable pub reverse : Address → Text
reverse ip =
    let delim = if ip.is_version_4 then b'.' else b':' in
    reverse_join delim (split_char delim ip.exploded)

abbrev pub last_part : List Text → Text
last_part [] = []
last_part (part ∷ []) = part
last_part (part ∷ next ∷ parts) = last_part (next ∷ parts)

-- `none` for False: no answer, or one whose last number is over 15
abbrev pub listing : Option Text → Option Text
listing none = none
listing (some result) =
    if ltb 15 (decimal 0 (last_part (split_char b'.' result))) then none else some result

-- A dictionary with MX records as keys: they are hashed and compared by their primary key.
abbrev pub Results : Type 0
Results = Dict ℕ (Mx × Option Text)

-- `for mx in mxs: results[mx] = result`
abbrev pub set_each : List Mx → Option Text → Results → Results
set_each [] result results = results
set_each (mx ∷ mxs) result results = set_each mxs result (insert mx.pk (mx, result) results)

module _ (ip_address : Text → Option Address) (gethostbyname : Text → Option Text) where
  abbrev pub ask : Text → Address → Option Text
  ask provider ip = listing (gethostbyname (reverse ip ++ b'.' ∷ provider ++ codes "."))

  -- an address that does not parse is left out
  abbrev pub set_asked : Text → Option Address → List Mx → Results → Results
  set_asked provider none mxs results = results
  set_asked provider (some ip) mxs results = set_each mxs (ask provider ip) results

  abbrev pub query_each : Text → Dict Text (List Mx) → Results → Results
  query_each provider [] results = results
  query_each provider ((address, mxs) ∷ mx_list) results =
      query_each provider mx_list (set_asked provider (ip_address address) mxs results)

  unfoldable pub query_dnsbl : Dict Text (List Mx) → Text → Results
  query_dnsbl mx_list provider = query_each provider mx_list []

-- The MX records by address, each once.
abbrev pub is_among : Mx → List Mx → Bool
is_among mx mxs = any (λ other. other.pk == mx.pk) mxs

-- by the records of the address so far
abbrev pub add_to : Option (List Mx) → Mx → Dict Text (List Mx) → Dict Text (List Mx)
add_to none mx groups = insert mx.address (mx ∷ []) groups
add_to (some mxs) mx groups =
    if is_among mx mxs then groups else insert mx.address (mxs ++ mx ∷ []) groups

abbrev pub group : List Mx → Dict Text (List Mx) → Dict Text (List Mx)
group [] groups = groups
group (mx ∷ mx_list) groups = group mx_list (add_to (lookup mx.address groups) mx groups)

unfoldable pub mx_by_ip : List Mx → Dict Text (List Mx)
mx_by_ip mx_list = group mx_list []

-- The rows of DNSBLResult of the domain, `unique_together` by provider and MX record.
pub record DnsblResult : Type 0 where
  pub provider : Text
  pub mx : Mx
  pub status : Text

abbrev pub is_row : (provider : Text) → Mx → DnsblResult → Bool
is_row provider mx row = row.provider == provider && row.mx.pk == mx.pk

-- `.filter(...).first()`: the status that is stored
abbrev pub stored_status : (provider : Text) → Mx → List DnsblResult → Option Text
stored_status provider mx [] = none
stored_status provider mx (row ∷ rows) =
    if is_row provider mx row then some row.status else stored_status provider mx rows

-- `dnsbl_result.status = result` and `save()`
abbrev pub save_status : (provider : Text) → Mx → Text → List DnsblResult → List DnsblResult
save_status provider mx status rows =
    map (λ row. if is_row provider mx row then record row { status = status } else row) rows

abbrev pub status_of : Option Text → Text
status_of none = []
status_of (some result) = result

pub record Store : Type 0 where
  pub rows : List DnsblResult
  pub to_create : List DnsblResult
  pub alarms : List Alarm
  pub alerts : List (Text × Text)

abbrev pub alarm_name : Text → Text
alarm_name provider = codes "domain_mx_in_dnsbl_" ++ provider

-- the new alarm and the alert, or the end of the open alarms
abbrev pub alarm_step : (now : ℕ) → (domain provider : Text) → Mx → Bool → Store → Store
alarm_step now domain provider mx true s = record s {
  alarms =
      s.alarms
      ++ new_domain_alarm now domain
          (codes "MX " ++ mx.name ++ codes " listed by DNSBL provider " ++ provider)
          (alarm_name provider)
        ∷ [];
  alerts = s.alerts ++ (provider, mx.name) ∷ [];
}
alarm_step now domain provider mx false s = record s {
  alarms = close_alarms now (alarm_name provider) s.alarms;
}

-- The row of the MX record, and whether it triggers an alarm. For a row that exists, the test comes
-- after the new status is in it.
abbrev pub row_step : (provider : Text) → Mx → Text → Option Text → Store → Store × Bool
row_step provider mx result none s = (
  record s {
    to_create = s.to_create ++ record { provider = provider; mx = mx; status = result } ∷ [];
  },
  not (result == []),
)
row_step provider mx result (some old) s =
    let saved = result in
    (record s { rows = save_status provider mx saved s.rows }, (saved == []) && not (result == []))

abbrev pub store_step : (now : ℕ) → (domain provider : Text) → Mx × Option Text → Store → Store
store_step now domain provider (mx, result) s =
    let (stored, trigger) =
      row_step provider mx (status_of result) (stored_status provider mx s.rows) s in
    alarm_step now domain provider mx trigger stored

abbrev pub store_each : (now : ℕ) → (domain provider : Text) → Results → Store → Store
store_each now domain provider [] s = s
store_each now domain provider ((_, result) ∷ results) s =
    store_each now domain provider results (store_step now domain provider result s)

-- The rows, the alarms and the alerts.
unfoldable pub store_dnsbl_result :
    (now : ℕ)
    → (domain provider : Text) → Results
    → List DnsblResult
    → List Alarm
    → List DnsblResult × List Alarm × List (Text × Text)
store_dnsbl_result now domain provider results rows alarms =
    let s =
      store_each now domain provider results
        (record { rows = rows; to_create = []; alarms = alarms; alerts = [] }) in
    (s.rows ++ s.to_create, s.alarms, s.alerts)
