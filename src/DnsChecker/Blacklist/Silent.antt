-- ===== src/DnsChecker/Blacklist/Silent.antt =====
-- What becomes of alarms, alerts and stored rows when the answers of a provider are stored.
use mrt_post_office.Prelude.{
  ℕ, Bool, true, false, not, ◌&&◌, ◌≡◌, refl, Option, none, List, [], ◌∷◌, ◌++◌, Text, ◌==◌,
  ==_refl, text_eq, nat_eq, arith, is_some, All, inl, inr, sym, ◌∙◌, Option-cases, subst,
}
use mrt_post_office.Policyd.Alarms.{Alarm}
use mrt_post_office.DnsChecker.Mx.{Mx, close_alarms}
use mrt_post_office.DnsChecker.Mx.OpenAlarms.{count_open, count_open-close_alarms}
use mrt_post_office.DnsChecker.Blacklist.{
  Results, DnsblResult, Store, stored_status, save_status, status_of, alarm_name, store_step,
  store_each, store_dnsbl_result,
}

-- The row of an MX record is there.
abbrev pub IsStored : (provider : Text) → List DnsblResult → ℕ × (Mx × Option Text) → Type 0
IsStored provider rows result = is_some (stored_status provider result.1.0 rows) ≡ true

is_some-save_status :
    (provider : Text) (x mx : Mx) (status : Text) (rows : List DnsblResult)
    → is_some (stored_status provider x (save_status provider mx status rows))
      ≡ is_some (stored_status provider x rows)
is_some-save_status provider x mx status [] = refl
is_some-save_status provider x mx status (row ∷ rows) =
    ground (arith, is_some-save_status provider x mx status rows)

All-save_status :
    (provider : Text) (mx : Mx) (status : Text) (rows : List DnsblResult) (results : Results)
    → All (IsStored provider rows) results
    → All (IsStored provider (save_status provider mx status rows)) results
All-save_status provider mx status rows [] stored = tt
All-save_status provider mx status rows (r ∷ results) (here, rest) = (
  is_some-save_status provider r.1.0 mx status rows ∙ here,
  All-save_status provider mx status rows results rest,
)

never_both : (b : Bool) → (b && not b) ≡ false
never_both true = refl
never_both false = refl

module _ (now : ℕ) (domain provider : Text) where
  -- A row that is there: it is saved, the open alarms are closed, nothing is sent.
  store_step_stored :
      (mx : Mx) (result : Option Text) (s : Store)
      → is_some (stored_status provider mx s.rows) ≡ true
      → store_step now domain provider (mx, result) s ≡ record s {
        rows = save_status provider mx (status_of result) s.rows;
        alarms = close_alarms now (alarm_name provider) s.alarms;
      }
  store_step_stored mx result s stored = elim (Option-cases (stored_status provider mx s.rows)) [
    | inl e ↦ cc
    | inr (old, e) ↦ rw e (rw (never_both (status_of result == [])) refl)
  ]

  store_each_stored :
      (r : ℕ × (Mx × Option Text)) (results : Results) (s : Store)
      → All (IsStored provider s.rows) (r ∷ results)
      → ((store_each now domain provider (r ∷ results) s).alerts ≡ s.alerts)
        × (count_open (alarm_name provider) (store_each now domain provider (r ∷ results) s).alarms
            ≡ 0)
  store_each_stored (k, (mx, result)) [] s (here, rest) = rw (store_step_stored mx result s here) (
    refl,
    rw (count_open-close_alarms now (alarm_name provider) (alarm_name provider) s.alarms, ==_refl)
        refl,
  )
  store_each_stored (k, (mx, result)) (next ∷ results) s (here, rest) =
      subst
        (λ (t : Store).
          ((store_each now domain provider (next ∷ results) t).alerts ≡ s.alerts)
          × (count_open (alarm_name provider)
                (store_each now domain provider (next ∷ results) t).alarms
              ≡ 0))
        (sym (store_step_stored mx result s here))
        (store_each_stored next results
          (record s {
            rows = save_status provider mx (status_of result) s.rows;
            alarms = close_alarms now (alarm_name provider) s.alarms;
          })
          (All-save_status provider mx (status_of result) s.rows (next ∷ results) rest))

  -- Where there is at least one answer, and every MX record of the answers has a row already,
  -- storing the answers raises no alert, whatever they are, and leaves no alarm of the provider
  -- open.
  pub store_dnsbl_result_silent :
      (r : ℕ × (Mx × Option Text)) (results : Results) (rows : List DnsblResult)
      (alarms : List Alarm)
      → All (IsStored provider rows) (r ∷ results)
      → ((store_dnsbl_result now domain provider (r ∷ results) rows alarms).2 ≡ [])
        × (count_open
              (alarm_name provider)
              (store_dnsbl_result now domain provider (r ∷ results) rows alarms).1
            ≡ 0)
  unfolding store_dnsbl_result
  store_dnsbl_result_silent r results rows alarms stored =
      store_each_stored r results
        (record { rows = rows; to_create = []; alarms = alarms; alerts = [] }) stored

  -- An MX record without a listing triggers nothing, whether its row is there or not.
  clean_step :
      (mx : Mx) (s : Store)
      → (store_step now domain provider (mx, none) s).alarms
        ≡ close_alarms now (alarm_name provider) s.alarms
  clean_step mx s = elim (Option-cases (stored_status provider mx s.rows)) [
    | inl e ↦ rw e refl
    | inr (old, e) ↦ rw e refl
  ]

  clean_last :
      (results : Results) (k : ℕ) (mx : Mx) (s : Store)
      → count_open
          (alarm_name provider)
          (store_each now domain provider (results ++ (k, (mx, none)) ∷ []) s).alarms
        ≡ 0
  clean_last [] k mx s =
      rw
        (
          clean_step mx s,
          count_open-close_alarms now (alarm_name provider) (alarm_name provider) s.alarms,
          ==_refl,
        )
        refl
  clean_last ((j, result) ∷ results) k mx s =
      clean_last results k mx (store_step now domain provider result s)

  pub store_dnsbl_result_last_decides :
      (results : Results) (k : ℕ) (mx : Mx) (rows : List DnsblResult) (alarms : List Alarm)
      → count_open
          (alarm_name provider)
          (store_dnsbl_result now domain provider (results ++ (k, (mx, none)) ∷ []) rows alarms).1
        ≡ 0
  unfolding store_dnsbl_result
  store_dnsbl_result_last_decides results k mx rows alarms =
      clean_last results k mx (record { rows = rows; to_create = []; alarms = alarms; alerts = [] })
