-- ===== src/DnsTools/Records.antt =====
-- How the records are found. The query, which gives no records or a list, is an argument.
use mrt_post_office.Prelude.{Bool, Option, none, some, List, [], ◌∷◌, ◌++◌, Text, if◌then◌else◌}
use mrt_post_office.Prelude.Chars.{codes, remove, strip, starts_with}
use mrt_post_office.Prelude.Result.{Result, ok, err}

-- DNSSyntaxError, the ValueError of an unpacking, and UnboundLocalError
pub data Error : Type 0 where
  dns_syntax_error value_error unbound_local_error : Error

-- `str(record).replace('" "', "").strip('"')`
abbrev pub unquote : Text → Text
unquote entry = strip b'"' (remove (b'"' ∷ b' ' ∷ b'"' ∷ []) 0 entry)

abbrev pub first_of_type : Text → List Text → Option Text
first_of_type rr_type [] = none
first_of_type rr_type (entry ∷ records) =
    let value = unquote entry in
    let later = first_of_type rr_type records in
    if starts_with (codes "v=" ++ rr_type) value then some value else later

unfoldable pub get_record_type_value : Option (List Text) → Text → Option Text
get_record_type_value none rr_type = none
get_record_type_value (some records) rr_type = first_of_type rr_type records

module _ (get_dns_records : Text → Text → Option (List Text)) where
  unfoldable pub get_spf_record : Text → Option Text
  unfolding get_record_type_value
  get_spf_record domain =
      get_record_type_value (get_dns_records domain (codes "TXT")) (codes "spf1")

  unfoldable pub get_dkim_record : (domain selector : Text) → Option Text
  unfolding get_record_type_value
  get_dkim_record domain selector =
      get_record_type_value
        (get_dns_records (selector ++ codes "._domainkey." ++ domain) (codes "TXT")) (codes "DKIM1")

  unfoldable pub get_dmarc_record : Text → Option Text
  unfolding get_record_type_value
  get_dmarc_record domain =
      get_record_type_value (get_dns_records (codes "_dmarc." ++ domain) (codes "TXT"))
        (codes "DMARC1")

  -- The first type that has records
  abbrev pub first_records : Text → List Text → Option (List Text)
  first_records name [] = none
  first_records name (rdtype ∷ rtypes) = elim (get_dns_records name rdtype) [
    | some records ↦ some records
    | none ↦ first_records name rtypes
  ]

  -- The loop that sets `value` does nothing for an empty list.
  abbrev pub first_value : Option (List Text) → Result Error (Option Text)
  first_value none = ok none
  first_value (some []) = err unbound_local_error
  first_value (some (entry ∷ records)) = ok (some (strip b'"' entry))

  abbrev pub rtypes : (enable_ipv6_mx_checks : Bool) → List Text
  rtypes enable_ipv6_mx_checks =
      codes "A" ∷ codes "CNAME" ∷ (if enable_ipv6_mx_checks then codes "AAAA" ∷ [] else [])

  unfoldable pub get_simple_record :
      (enable_ipv6_mx_checks : Bool) → Text → Result Error (Option Text)
  get_simple_record enable_ipv6_mx_checks name =
      first_value (first_records name (rtypes enable_ipv6_mx_checks))

  unfoldable pub get_autoconfig_record : Bool → Text → Result Error (Option Text)
  unfolding get_simple_record
  get_autoconfig_record ipv6 domain = get_simple_record ipv6 (codes "autoconfig." ++ domain)

  unfoldable pub get_autodiscover_record : Bool → Text → Result Error (Option Text)
  unfolding get_simple_record
  get_autodiscover_record ipv6 domain = get_simple_record ipv6 (codes "autodiscover." ++ domain)
