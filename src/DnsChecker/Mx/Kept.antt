-- ===== src/DnsChecker/Mx/Kept.antt =====
-- What a check leaves of the alarms that were there: it closes open ones of the two names, and
-- appends one at the most.
use mrt_post_office.Prelude.{
  ℕ, Bool, true, false, ◌≡◌, ◌⊎◌, refl, Option, List, [], ◌∷◌, ◌++◌, map, Text, if◌then◌else◌,
  text_eq, any, ap, sym, ◌∙◌, subst, inl, inr, Bool-cases, if_true, if_false, ⊤, arith,
}
use mrt_post_office.Prelude.Chars.{codes}
use mrt_post_office.Prelude.Result.{ok, ◌>>=◌, >>=-eq-ok, ok_injective, err-ok}
use mrt_post_office.Policyd.Alarms.{Alarm, close}
use mrt_post_office.DnsChecker.Mx.{
  Mx, is_open_alarm, open_alarms, new_domain_alarm, get_or_create, close_alarms, no_mx, invalid_mx,
  is_valid, check_subnets, check_parsed, join, describe,
}

-- An open alarm of one of the two names
abbrev pub IsWatched : Alarm → Type 0
IsWatched a = (is_open_alarm no_mx a ≡ true) ⊎ (is_open_alarm invalid_mx a ≡ true)

-- The alarms, with some that are watched closed
abbrev pub Kept : ℕ → List Alarm → List Alarm → Type 0
Kept now [] [] = ⊤
Kept now [] (b ∷ after) = ⊥
Kept now (a ∷ alarms) [] = ⊥
Kept now (a ∷ alarms) (b ∷ after) =
    ((b ≡ a) ⊎ (IsWatched a × (b ≡ close now a))) × Kept now alarms after

abbrev pub KeepsOthers : ℕ → List Alarm → List Alarm → Type 0
KeepsOthers now alarms after =
    (kept : List Alarm) × Kept now alarms kept
    × ((after ≡ kept) ⊎ ((new : Alarm) × (after ≡ kept ++ new ∷ []) × IsWatched new))

Kept-self : (now : ℕ) (alarms : List Alarm) → Kept now alarms alarms
Kept-self now [] = tt
Kept-self now (a ∷ alarms) = (inl refl, Kept-self now alarms)

-- by the name that is closed
is_watched :
    (name : Text) (a : Alarm)
    → (name ≡ no_mx) ⊎ (name ≡ invalid_mx)
    → is_open_alarm name a ≡ true
    → IsWatched a
is_watched name a (inl e) h = inl (ap (λ n. is_open_alarm n a) (sym e) ∙ h)
is_watched name a (inr e) h = inr (ap (λ n. is_open_alarm n a) (sym e) ∙ h)

not_open : (name : Text) (now : ℕ) (a : Alarm) → is_open_alarm name (close now a) ≡ false
unfolding close
not_open name now a = ground arith

Kept-close_alarms :
    (now : ℕ) (name : Text) (alarms after : List Alarm)
    → (name ≡ no_mx) ⊎ (name ≡ invalid_mx)
    → Kept now alarms after
    → Kept now alarms (close_alarms now name after)
unfolding close_alarms
Kept-close_alarms now name [] [] watched kept = tt
Kept-close_alarms now name [] (b ∷ after) watched kept = elim kept [ ]
Kept-close_alarms now name (a ∷ alarms) [] watched kept = elim kept [ ]
Kept-close_alarms now name (a ∷ alarms) (b ∷ after) watched (inl e, kept) = (
  elim (Bool-cases (is_open_alarm name b)) [
    | inl open_now ↦ inr (
      subst IsWatched e (is_watched name b watched open_now),
      if_true _ open_now ∙ ap (close now) e,
    )
    | inr other ↦ inl (if_false _ other ∙ e)
  ],
  Kept-close_alarms now name alarms after watched kept,
)
Kept-close_alarms now name (a ∷ alarms) (b ∷ after) watched (inr (open_then, e), kept) = (
  inr (open_then, if_false _ (ap (is_open_alarm name) e ∙ not_open name now a) ∙ e),
  Kept-close_alarms now name alarms after watched kept,
)

get_or_create-KeepsOthers :
    (now : ℕ) (alarms before opens : List Alarm) (new : Alarm) (after : List Alarm × Bool)
    → Kept now alarms before
    → IsWatched new
    → get_or_create opens new before ≡ ok after
    → KeepsOthers now alarms after.0
get_or_create-KeepsOthers now alarms before [] new after kept watched h =
    (before, kept, inr (new, ap (λ (x : List Alarm × Bool). x.0) (sym (ok_injective h)), watched))
get_or_create-KeepsOthers now alarms before (a ∷ []) new after kept watched h =
    (before, kept, inl (ap (λ (x : List Alarm × Bool). x.0) (sym (ok_injective h))))
get_or_create-KeepsOthers now alarms before (a ∷ b ∷ more) new after kept watched h = err-ok h

-- the alarms once one is raised, and the alerts
raise_alarm :
    (now : ℕ) (alarms before opens : List Alarm) (new : Alarm)
    (alert : List Alarm × Bool → List Text) (after : List Alarm × List Text)
    → Kept now alarms before
    → IsWatched new
    → (get_or_create opens new before >>= (λ r. ok (r.0, alert r))) ≡ ok after
    → KeepsOthers now alarms after.0
raise_alarm now alarms before opens new alert after kept watched h =
    let (raised, got, rest) =
      >>=-eq-ok (get_or_create opens new before) (λ r. ok (r.0, alert r)) h in
    subst (KeepsOthers now alarms) (ap (λ (x : List Alarm × List Text). x.0) (ok_injective rest))
      (get_or_create-KeepsOthers now alarms before opens new raised kept watched got)

module _ {Ip Net : Type 0} (ip_address : Text → Option Ip) (◌in_net◌ : Ip → Net → Bool) (now : ℕ)
    (domain : Text) (mx_list : List Mx) (alarms : List Alarm) where
  after_first-Kept : Kept now alarms (close_alarms now no_mx alarms)
  after_first-Kept = Kept-close_alarms now no_mx alarms alarms (inl refl) (Kept-self now alarms)

  check_subnets-KeepsOthers :
      (nets : List Net) (mxs : List (Mx × Ip)) (after : List Alarm × List Text)
      → check_subnets ip_address ◌in_net◌ now domain nets mx_list mxs
          (close_alarms now no_mx alarms)
        ≡ ok after
      → KeepsOthers now alarms after.0
  check_subnets-KeepsOthers [] mxs after h = (
    close_alarms now no_mx alarms,
    after_first-Kept,
    inl (ap (λ (x : List Alarm × List Text). x.0) (sym (ok_injective h))),
  )
  check_subnets-KeepsOthers (net ∷ nets) mxs after h =
      elim (Bool-cases
        (any (λ (mx : Mx × Ip). is_valid ip_address ◌in_net◌ (net ∷ nets) mx.1) mxs)) [
          | inl e ↦ (
            close_alarms now invalid_mx (close_alarms now no_mx alarms),
            Kept-close_alarms now invalid_mx alarms (close_alarms now no_mx alarms) (inr refl)
                after_first-Kept,
            inl (
                ap (λ (x : List Alarm × List Text). x.0)
                  (sym (ok_injective (sym (if_true _ e) ∙ h)))),
          )
          | inr e ↦
              let names = join (map describe mx_list) in
              let closed = close_alarms now no_mx alarms in
              raise_alarm now alarms closed (open_alarms invalid_mx closed)
                (new_domain_alarm now domain (codes "Invalid MX record: " ++ names) invalid_mx)
                (λ r.
                  if r.1
                  then (codes "MX record for domain " ++ domain ++ codes " is invalid: " ++ names)
                    ∷ []
                  else [])
                after after_first-Kept (inr refl) (sym (if_false _ e) ∙ h)
        ]

  pub check_parsed-KeepsOthers :
      (valid_mxs : List Net) (mxs : List (Mx × Ip)) (after : List Alarm × List Text)
      → check_parsed ip_address ◌in_net◌ now domain valid_mxs mx_list mxs alarms ≡ ok after
      → KeepsOthers now alarms after.0
  check_parsed-KeepsOthers valid_mxs [] after h =
      raise_alarm now alarms alarms (open_alarms no_mx alarms)
        (new_domain_alarm now domain (codes "Domain has no MX record") no_mx)
        (λ r. if r.1 then (codes "Domain " ++ domain ++ codes " has no MX record") ∷ [] else [])
        after (Kept-self now alarms) (inl refl) h
  check_parsed-KeepsOthers valid_mxs (mx ∷ mxs) after h =
      check_subnets-KeepsOthers valid_mxs (mx ∷ mxs) after h
