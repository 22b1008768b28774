-- ===== src/DnsChecker/Blacklist/Query.antt =====
-- Which answer each MX record gets: that for its own address.
use mrt_post_office.Prelude.{
  ℕ, true, ◌≡◌, refl, Option, none, some, List, [], ◌∷◌, Text, if◌then◌else◌, ◌==◌, text_eq, nat_eq,
  arith, Bool-cases, inl, inr, ap, ◌∙◌, if_true, some_injective, none-some,
}
use mrt_post_office.Prelude.Bools.{or_false}
use mrt_post_office.Prelude.Dict.{Dict, insert}
use mrt_post_office.DnsChecker.Mx.{Mx}
use mrt_post_office.DnsChecker.Blacklist.{
  Address, Results, set_asked, set_each, ask, query_each, query_dnsbl, group, mx_by_ip,
}
use mrt_post_office.DnsChecker.Blacklist.Groups.{
  has, has_group, HasAddress, IsGrouped, group-StepsTo,
}

-- `results[mx]`, for the key of the record
abbrev pub answer : ℕ → Results → Option (Option Text)
answer k [] = none
answer k ((j, (mx, result)) ∷ results) = if j == k then some result else answer k results

answer-insert :
    (k j : ℕ) (mx : Mx) (result : Option Text) (results : Results)
    → answer k (insert j (mx, result) results) ≡ (if j == k then some result else answer k results)
answer-insert k j mx result [] = refl
answer-insert k j mx result ((i, old) ∷ results) =
    ground (arith, answer-insert k j mx result results)

answer-set_each :
    (k : ℕ) (mxs : List Mx) (result : Option Text) (results : Results)
    → answer k (set_each mxs result results) ≡ (if has k mxs then some result else answer k results)
answer-set_each k [] result results = refl
answer-set_each k (mx ∷ mxs) result results = ground (
  arith,
  answer-set_each k mxs result (insert mx.pk (mx, result) results),
  answer-insert k mx.pk mx result results,
)

module _ (ip_address : Text → Option Address) (gethostbyname : Text → Option Text) where
  answer-set_asked :
      (provider : Text) (k : ℕ) (ip : Address) (found : Option Address) (mxs : List Mx)
      (results : Results)
      → (has k mxs ≡ true → found ≡ some ip)
      → answer k (set_asked ip_address gethostbyname provider found mxs results)
        ≡ (if has k mxs then some (ask ip_address gethostbyname provider ip) else answer k results)
  answer-set_asked provider k ip none mxs results same = elim (Bool-cases (has k mxs)) [
    | inl e ↦ none-some (same e)
    | inr e ↦ rw e refl
  ]
  answer-set_asked provider k ip (some other) mxs results same = elim (Bool-cases (has k mxs)) [
    | inl e ↦
        answer-set_each k mxs (ask ip_address gethostbyname provider other) results
        ∙ rw e (ap (λ o. some (ask ip_address gethostbyname provider o)) (some_injective (same e)))
    | inr e ↦
        answer-set_each k mxs (ask ip_address gethostbyname provider other) results ∙ rw e refl
  ]

  answer-query_each :
      (provider : Text) (k : ℕ) (address : Text) (ip : Address) (groups : Dict Text (List Mx))
      (results : Results)
      → ip_address address ≡ some ip
      → IsGrouped k address groups
      → answer k (query_each ip_address gethostbyname provider groups results) ≡ (
          if has_group k groups
          then some (ask ip_address gethostbyname provider ip)
          else answer k results)
  answer-query_each provider k address ip [] results parsed grouped = refl
  answer-query_each provider k address ip ((other, mxs) ∷ groups) results parsed (here, rest) =
      answer-query_each provider k address ip groups
        (set_asked ip_address gethostbyname provider (ip_address other) mxs results) parsed rest
      ∙ ground (
        arith,
        answer-set_asked provider k ip (ip_address other) mxs results
            (λ e. ap ip_address (here e) ∙ parsed),
      )

-- After the MX records are grouped by address, a provider is asked, for each record with an
-- address that parses, for that address, and the record gets the answer, where all records with
-- its key have its address.
pub answer-query_dnsbl :
    (ip_address : Text → Option Address) (gethostbyname : Text → Option Text) (provider : Text)
    (mx_list : List Mx) (k : ℕ) (address : Text) (ip : Address)
    → HasAddress k address mx_list
    → has k mx_list ≡ true
    → ip_address address ≡ some ip
    → answer k (query_dnsbl ip_address gethostbyname (mx_by_ip mx_list) provider)
      ≡ some (ask ip_address gethostbyname provider ip)
unfolding query_dnsbl mx_by_ip
answer-query_dnsbl ip_address gethostbyname provider mx_list k address ip named listed parsed =
    let (grouped, held) = group-StepsTo k address mx_list [] named tt in
    answer-query_each ip_address gethostbyname provider k address ip (group mx_list []) [] parsed
      grouped
    ∙ if_true _ (held ∙ or_false (has k mx_list) ∙ listed)
