-- ===== src/DnsTools/Tests.antt =====
-- Records as they are published.
use mrt_post_office.Prelude.{
  ◌≤◌, Bool, true, false, ◌≡◌, ◌↔◌, refl, Option, none, some, [], ◌∷◌, ◌++◌, Text, text_eq, nat_eq,
  if◌then◌else◌,
}
use mrt_post_office.Prelude.Chars.{codes, split_char, decimal}
use mrt_post_office.Prelude.Dict.{Dict, lookup}
use mrt_post_office.Prelude.Int.{ℤ, pos, ◌≤ℤ◌}
use mrt_post_office.Prelude.Result.{ok, err}
use mrt_post_office.DnsTools.Records.{
  dns_syntax_error, value_error, unbound_local_error, get_record_type_value, get_autoconfig_record,
  get_simple_record,
}
use mrt_post_office.DnsTools.Spf.{
  are_digits, check_spf_ip4, check_spf_ip6, check_domain_and_mask, check_spf_syntax, tail,
}
use mrt_post_office.DnsTools.Spf.Masks.{check_domain_and_mask-le, check_domain_and_mask_dual}
use mrt_post_office.DnsTools.Tags.{check_dkim_syntax, check_dmarc_syntax, collect_tags, policies}
use mrt_post_office.DnsTools.Tags.Dkim.{check_dkim_syntax-dkim_record}
use mrt_post_office.DnsTools.Tags.Dmarc.{In, check_dmarc_syntax-Says}

-- every text is a network
abbrev any_network : Text → Bool
any_network _ = true

-- a reading of numbers below 1000
abbrev int : Text → Option ℤ
int [] = none
int (c ∷ s) = if are_digits (c ∷ s) then some (pos (decimal 0 (c ∷ s))) else none

two_strings :
    get_record_type_value (some (codes "\"v=spf1 mx\" \" -all\"" ∷ [])) (codes "spf1")
    ≡ some (codes "v=spf1 mx -all")
unfolding get_record_type_value
two_strings = refl

no_value : get_autoconfig_record (λ _ _. some []) false (codes "a.fr") ≡ err unbound_local_error
unfolding get_autoconfig_record get_simple_record
no_value = refl

abbrev spf : Text
spf = codes "v=spf1 ip4:10.0.0.0/8 a:a.fr/24 ~mx redirect=b.fr -all"

twice_refused : check_spf_syntax any_network (codes "v=spf1 exp=a exp=b") ≡ err dns_syntax_error
unfolding check_spf_syntax check_spf_ip4 check_spf_ip6 check_domain_and_mask split_char
twice_refused = refl

mask_24 :
    (check_domain_and_mask (codes "a" ++ b':' ∷ (codes "a.fr" ++ b'/' ∷ codes "24")) ≡ ok tt)
    ↔ ((are_digits (codes "24") ≡ true) × (decimal 0 (codes "24") ≤ 32))
mask_24 = check_domain_and_mask-le (codes "a") (codes "a.fr") b'2' (codes "4") refl refl refl refl

dual_mask : check_domain_and_mask (codes "a:a.fr/24//64") ≡ err value_error
dual_mask =
    check_domain_and_mask_dual (codes "a") (codes "a.fr") (codes "24") (codes "64") refl refl refl
      refl refl

check_dkim_syntax-dkim_record_example :
    check_dkim_syntax (codes "v=DKIM1; k=rsa; p=\"MIG\" \"fMA=\"; t=s") ≡ ok (codes "MIGfMA=")
check_dkim_syntax-dkim_record_example =
    check_dkim_syntax-dkim_record ((codes "k", codes "rsa") ∷ []) ((codes "t", codes "s") ∷ [])
      (codes "MIG") (codes "fMA=" ∷ []) ((refl, refl, refl, refl, refl), tt)
      ((refl, refl, refl, refl, refl), tt) (refl, refl, refl) ((refl, refl, refl), tt)

abbrev dmarc : Text
dmarc = codes "v=DMARC1; p=none; pct=50; rua=mailto:x@a.fr"

dmarc_accepted : check_dmarc_syntax int dmarc ≡ ok tt
unfolding check_dmarc_syntax collect_tags split_char
dmarc_accepted = refl

-- A space after the last semicolon is no tag for DKIM; here it is a wrong one.
blank_tag :
    (check_dmarc_syntax int (codes "v=DMARC1; p=none; ") ≡ err dns_syntax_error)
    × (check_dkim_syntax (codes "v=DKIM1; p=MIG; ") ≡ ok (codes "MIG"))
unfolding check_dmarc_syntax collect_tags check_dkim_syntax split_char
blank_tag = (refl, refl)

check_dmarc_syntax-Says_example :
    (tags : Dict Text Text) × (collect_tags int (tail (split_char b';' dmarc)) [] ≡ ok tags)
    × ((policy : Text) × (lookup (codes "p") tags ≡ some policy) × In policy policies)
    × ((value : Text)
        → lookup (codes "pct") tags ≡ some value
        → (n : ℤ) × (int value ≡ some n) × (pos 0 ≤ℤ n) × (n ≤ℤ pos 100))
check_dmarc_syntax-Says_example = check_dmarc_syntax-Says int dmarc dmarc_accepted
