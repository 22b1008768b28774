-- ===== src/DnsChecker/Tests.antt =====
-- Two MX records at one address, one of them listed before.
use mrt_post_office.Prelude.{
  true, false, ◌≡◌, refl, Option, none, some, List, [], ◌∷◌, Text, arith, ◌==◌, text_eq,
}
use mrt_post_office.Prelude.Chars.{codes, split_char}
use mrt_post_office.Prelude.Result.{ok}
use mrt_post_office.Policyd.Alarms.{Alarm}
use mrt_post_office.DnsChecker.Mx.{Mx, check_valid_mx, get_or_create_for_domain}
use mrt_post_office.DnsChecker.Mx.Kept.{KeepsOthers}
use mrt_post_office.DnsChecker.Mx.OpenAlarms.{count_open, open_after, check_valid_mx-open_after}
use mrt_post_office.DnsChecker.Blacklist.{
  Address, DnsblResult, reverse, listing, query_dnsbl, mx_by_ip, store_dnsbl_result, alarm_name,
}
use mrt_post_office.DnsChecker.Blacklist.Query.{answer, answer-query_dnsbl}
use mrt_post_office.DnsChecker.Blacklist.Silent.{
  store_dnsbl_result_silent, store_dnsbl_result_last_decides,
}

abbrev first : Mx
first = record {
  pk = 1;
  name = codes "mx1";
  address = codes "10.0.0.9";
  managed = false;
  updated = 50;
}

abbrev second : Mx
second = record {
  pk = 2;
  name = codes "mx2";
  address = codes "10.0.0.9";
  managed = false;
  updated = 50;
}

abbrev provider : Text
provider = codes "bl.fr"

-- every text is an address of version 4
abbrev any_address : Text → Option Address
any_address s = some (record { is_version_4 = true; exploded = s })

-- everything is listed
abbrev listed : Text → Option Text
listed _ = some (codes "127.0.0.2")

reversed : reverse (record { is_version_4 = true; exploded = codes "10.0.0.9" }) ≡ codes "9.0.0.10"
unfolding reverse split_char
reversed = refl

not_listed : listing (some (codes "127.0.0.16")) ≡ none
unfolding split_char
not_listed = refl

answer-query_dnsbl_example :
    answer 2 (query_dnsbl any_address listed (mx_by_ip (first ∷ second ∷ [])) provider)
    ≡ some (some (codes "127.0.0.2"))
unfolding split_char
answer-query_dnsbl_example =
    answer-query_dnsbl any_address listed provider (first ∷ second ∷ []) 2 (codes "10.0.0.9")
      (record { is_version_4 = true; exploded = codes "10.0.0.9" }) ((λ _. refl), ((λ _. refl), tt))
      refl refl

-- the record was clean; now it is listed
abbrev clean_row : DnsblResult
clean_row = record { provider = provider; mx = first; status = [] }

store_dnsbl_result_silent_example :
    ((store_dnsbl_result 7
        (codes "a.fr")
        provider
        ((1, (first, some (codes "127.0.0.2"))) ∷ [])
        (clean_row ∷ [])
        []).2
      ≡ [])
    × (count_open
          (alarm_name provider)
          (store_dnsbl_result 7
            (codes "a.fr")
            provider
            ((1, (first, some (codes "127.0.0.2"))) ∷ [])
            (clean_row ∷ [])
            []).1
        ≡ 0)
store_dnsbl_result_silent_example =
    store_dnsbl_result_silent 7 (codes "a.fr") provider (1, (first, some (codes "127.0.0.2"))) []
      (clean_row ∷ []) [] (refl, tt)

-- both records are new, the first is listed
listed_first :
    (store_dnsbl_result 7
      (codes "a.fr")
      provider
      ((1, (first, some (codes "127.0.0.2"))) ∷ (2, (second, none)) ∷ [])
      []
      []).2
    ≡ (provider, codes "mx1") ∷ []
unfolding store_dnsbl_result
listed_first = refl

second_closes :
    count_open
      (alarm_name provider)
      (store_dnsbl_result 7
        (codes "a.fr")
        provider
        ((1, (first, some (codes "127.0.0.2"))) ∷ (2, (second, none)) ∷ [])
        []
        []).1
    ≡ 0
second_closes =
    store_dnsbl_result_last_decides 7 (codes "a.fr") provider
      ((1, (first, some (codes "127.0.0.2"))) ∷ []) 2 second [] []

abbrev parsed : List (Mx × Text)
parsed = (first, codes "10.0.0.9") ∷ []

-- A subnet is one address here.
check_valid_mx-open_after_example :
    (after : List Mx × List Alarm × List Text) × (check_valid_mx some
        (λ ip net. ip == net)
        7
        (codes "a.fr")
        (codes "10.0.0.1" ∷ [])
        (first ∷ [])
        []
      ≡ ok after)
    × ((name : Text)
        → count_open name after.1 ≡ open_after parsed (codes "10.0.0.1" ∷ []) false name 0)
    × KeepsOthers 7 [] after.1
check_valid_mx-open_after_example =
    check_valid_mx-open_after some (λ ip net. ip == net) 7 (codes "a.fr") (first ∷ []) []
      (omega arith) (omega arith) (codes "10.0.0.1" ∷ []) ((first, codes "10.0.0.9") ∷ []) refl

-- fresh rows are used; otherwise they are replaced
cached : get_or_create_for_domain 40 10 3 [] (first ∷ []) ≡ (first ∷ [], first ∷ [])
unfolding get_or_create_for_domain
cached = refl

replaced : get_or_create_for_domain 50 10 3 [] (first ∷ []) ≡ ([], [])
unfolding get_or_create_for_domain
replaced = refl
