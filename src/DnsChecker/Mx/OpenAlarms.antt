-- ===== src/DnsChecker/Mx/OpenAlarms.antt =====
-- The alarms that a check opens and closes.
use mrt_post_office.Prelude.{
  ℕ, ◌+◌, ◌≤◌, Bool, true, false, ◌≡◌, refl, Option, List, [], ◌∷◌, ◌++◌, map, Text, if◌then◌else◌,
  ◌==◌, ==_iff, text_eq, any, arith, length, Bool-cases, inl, inr, ap, sym, ◌∙◌,
}
use mrt_post_office.Prelude.Chars.{codes}
use mrt_post_office.Prelude.Result.{Result, ok}
use mrt_post_office.Policyd.Alarms.{Alarm, close}
use mrt_post_office.DnsChecker.Mx.Kept.{KeepsOthers, check_parsed-KeepsOthers}
use mrt_post_office.DnsChecker.Mx.{
  Mx, Error, open_alarms, new_domain_alarm, get_or_create, close_alarms, no_mx, invalid_mx,
  parse_addresses, is_valid, mark_managed, check_valid_mx, open_invalid, check_parsed, join,
  describe,
}

-- How many alarms of a name are open.
abbrev pub count_open : Text → List Alarm → ℕ
count_open name alarms = length (open_alarms name alarms)

count_append :
    (name : Text) (a b : List Alarm)
    → count_open name (a ++ b) ≡ count_open name a + count_open name b
count_append name [] b = omega arith
count_append name (x ∷ a) b = ground (arith, count_append name a b)

pub count_open-close_alarms :
    (now : ℕ) (closed name : Text) (alarms : List Alarm)
    → count_open name (close_alarms now closed alarms)
      ≡ (if closed == name then 0 else count_open name alarms)
unfolding close_alarms close
count_open-close_alarms now closed name [] = ground arith
count_open-close_alarms now closed name (a ∷ alarms) = ground (
  arith,
  ==_iff a.internal_name closed,
  ==_iff a.internal_name name,
  ==_iff closed name,
  count_open-close_alarms now closed name alarms,
)

count_new :
    (now : ℕ) (domain title opened_name name : Text)
    → count_open name (new_domain_alarm now domain title opened_name ∷ [])
      ≡ (if opened_name == name then 1 else 0)
count_new now domain title opened_name name = ground arith

same_count :
    (a b : Text) (alarms : List Alarm) → (a == b) ≡ true → count_open b alarms ≡ count_open a alarms
same_count a b alarms e = ap (λ name. count_open name alarms) (sym ((==_iff a b).0 e))

module _ (now : ℕ) (domain : Text) where
  -- What get_or_create does to the open alarms, where it does not raise
  abbrev IsOpenedOnce : Text → List Alarm → Result Error (List Alarm × Bool) → Type 0
  IsOpenedOnce opened_name alarms result =
      (after : List Alarm × Bool) × (result ≡ ok after)
      × ((name : Text)
          → count_open name after.0 ≡ (if opened_name == name then 1 else count_open name alarms))

  new_count :
      (title opened_name name : Text) (alarms : List Alarm)
      → count_open opened_name alarms ≡ 0
      → count_open name alarms
          + count_open name (new_domain_alarm now domain title opened_name ∷ [])
        ≡ (if opened_name == name then 1 else count_open name alarms)
  new_count title opened_name name alarms none_open = elim (Bool-cases (opened_name == name)) [
    | inl e ↦
        let same = same_count opened_name name alarms e in
        rw (count_new now domain title opened_name name) (rw e (omega arith))
    | inr e ↦ rw (count_new now domain title opened_name name) (rw e (omega arith))
  ]

  get_or_create-IsOpenedOnce :
      (title opened_name : Text) (alarms opens : List Alarm)
      → opens ≡ open_alarms opened_name alarms
      → count_open opened_name alarms ≤ 1
      → IsOpenedOnce opened_name alarms
          (get_or_create opens (new_domain_alarm now domain title opened_name) alarms)
  get_or_create-IsOpenedOnce title opened_name alarms [] same single = (
    (alarms ++ new_domain_alarm now domain title opened_name ∷ [], true),
    refl,
    (λ name.
        count_append name alarms (new_domain_alarm now domain title opened_name ∷ [])
        ∙ new_count title opened_name name alarms (sym (ap length same))),
  )
  get_or_create-IsOpenedOnce title opened_name alarms (a ∷ []) same single = (
    (alarms, false),
    refl,
    (λ name. elim (Bool-cases (opened_name == name)) [
      | inl e ↦ rw e (same_count opened_name name alarms e ∙ sym (ap length same))
      | inr e ↦ rw e refl
    ]),
  )
  get_or_create-IsOpenedOnce title opened_name alarms (a ∷ b ∷ more) same single =
      let counted = ap length same in absurd (omega arith)

-- What a check leaves open of a name: `no_mx` where there is no record, `invalid_mx` where no
-- address is in a subnet and there are subnets.
abbrev pub open_after : {A B : Type 0} → List A → List B → Bool → Text → ℕ → ℕ
open_after [] valid_mxs inside name before = if no_mx == name then 1 else before
open_after (mx ∷ mxs) [] inside name before = if no_mx == name then 0 else before
open_after (mx ∷ mxs) (net ∷ nets) inside name before =
    if invalid_mx == name then (if inside then 0 else 1) else if no_mx == name then 0 else before

module _ {Ip Net : Type 0} (ip_address : Text → Option Ip) (◌in_net◌ : Ip → Net → Bool) (now : ℕ)
    (domain : Text) (mx_list : List Mx) (alarms : List Alarm)
    (single_no_mx : count_open no_mx alarms ≤ 1)
    (single_invalid : count_open invalid_mx alarms ≤ 1) where
  abbrev Checked : List Net → List (Mx × Ip) → Result Error (List Alarm × List Text) → Type 0
  Checked valid_mxs mxs result =
      (after : List Alarm × List Text) × (result ≡ ok after)
      × ((name : Text)
          → count_open name after.0
            ≡ open_after mxs valid_mxs
                (any (λ (mx : Mx × Ip). is_valid ip_address ◌in_net◌ valid_mxs mx.1) mxs) name
                (count_open name alarms))

  check_inside :
      (net : Net) (nets : List Net) (mx : Mx × Ip) (mxs : List (Mx × Ip)) (inside : Bool)
      → any (λ (x : Mx × Ip). is_valid ip_address ◌in_net◌ (net ∷ nets) x.1) (mx ∷ mxs) ≡ inside
      → Checked (net ∷ nets) (mx ∷ mxs) (
          if inside
          then ok (close_alarms now invalid_mx (close_alarms now no_mx alarms), [])
          else open_invalid ip_address ◌in_net◌ now domain mx_list (close_alarms now no_mx alarms))
  check_inside net nets mx mxs true same = (
    (close_alarms now invalid_mx (close_alarms now no_mx alarms), []),
    refl,
    (λ name. rw same (
        count_open-close_alarms now invalid_mx name (close_alarms now no_mx alarms)
        ∙ ap (λ n. if invalid_mx == name then 0 else n)
            (count_open-close_alarms now no_mx name alarms))),
  )
  check_inside net nets mx mxs false same =
      let closed = close_alarms now no_mx alarms in
      let names = join (map describe mx_list) in
      let before = count_open-close_alarms now no_mx invalid_mx alarms in
      let single : count_open invalid_mx closed ≤ 1 = omega (arith, before) in
      let (after, opened_once, counts) =
        get_or_create-IsOpenedOnce now domain (codes "Invalid MX record: " ++ names) invalid_mx
          closed (open_alarms invalid_mx closed) refl single in
      (
        (
          after.0,
          if after.1
              then (codes "MX record for domain " ++ domain ++ codes " is invalid: " ++ names) ∷ []
              else [],
        ),
        cc,
        (λ name. rw same (
            counts name
            ∙ ap (λ n. if invalid_mx == name then 1 else n)
                (count_open-close_alarms now no_mx name alarms))),
      )

  check_parsed-Checked :
      (valid_mxs : List Net) (mxs : List (Mx × Ip))
      → Checked valid_mxs mxs
          (check_parsed ip_address ◌in_net◌ now domain valid_mxs mx_list mxs alarms)
  check_parsed-Checked valid_mxs [] =
      let (after, same, counts) =
        get_or_create-IsOpenedOnce now domain (codes "Domain has no MX record") no_mx alarms
          (open_alarms no_mx alarms) refl single_no_mx in
      (
        (
          after.0,
          if after.1 then (codes "Domain " ++ domain ++ codes " has no MX record") ∷ [] else [],
        ),
        cc,
        counts,
      )
  check_parsed-Checked [] (mx ∷ mxs) = (
    (close_alarms now no_mx alarms, []),
    refl,
    (λ name. count_open-close_alarms now no_mx name alarms),
  )
  check_parsed-Checked (net ∷ nets) (mx ∷ mxs) = check_inside net nets mx mxs _ refl

  -- Where the addresses parse and at most one alarm of each of the two names is open, the check
  -- returns; then a "no MX" alarm is open exactly where there is no record, an "invalid MX" alarm
  -- exactly where there are records and subnets and no address is in one, unless records or
  -- subnets are missing, which leaves these as they were; as many alarms of any other name are
  -- open as before; and of the alarms that were there, open ones of the two names may be closed
  -- now, the others, those that were closed already among them, are as they were, and one alarm
  -- at the most, open and of the two names, comes after them.
  pub check_valid_mx-open_after :
      (valid_mxs : List Net) (mxs : List (Mx × Ip))
      → parse_addresses ip_address ◌in_net◌ mx_list ≡ ok mxs
      → (after : List Mx × List Alarm × List Text) × (check_valid_mx ip_address ◌in_net◌ now domain
            valid_mxs mx_list alarms
          ≡ ok after)
        × ((name : Text)
            → count_open name after.1
              ≡ open_after mxs valid_mxs
                  (any (λ (mx : Mx × Ip). is_valid ip_address ◌in_net◌ valid_mxs mx.1) mxs)
                  name
                  (count_open name alarms))
        × KeepsOthers now alarms after.1
  unfolding check_valid_mx
  check_valid_mx-open_after valid_mxs mxs parsed =
      let (after, checked, counts) = check_parsed-Checked valid_mxs mxs in
      (
        (mark_managed ip_address ◌in_net◌ valid_mxs mxs, after.0, after.1),
        cc,
        counts,
        check_parsed-KeepsOthers ip_address ◌in_net◌ now domain mx_list alarms valid_mxs mxs after
            checked,
      )
