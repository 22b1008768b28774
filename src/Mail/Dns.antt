-- ===== src/Mail/Dns.antt =====
-- `Domain.dns_global_status` of modoboa/admin/models/domain.py, with the tests that it calls.
use mrt_post_office.Prelude.{
  ℕ, ◌+◌, ◌≡◌, refl, ap, Bool, true, false, not, ◌&&◌, ◌||◌, Option, none, some, List, [], ◌∷◌,
  Text, arith, if◌then◌else◌, ◌==◌, text_eq, ltb, any, All,
}
use mrt_post_office.EmailUtils.Split.{split_once}
use mrt_post_office.Prelude.Chars.{codes}

-- `config`: the parameters of the application "admin"
pub record Config : Type 0 where
  pub enable_mx_checks : Bool
  pub enable_dnsbl_checks : Bool
  pub enable_spf_checks : Bool
  pub enable_dkim_checks : Bool
  pub enable_dmarc_checks : Bool
  pub dmarc_check_is_critical : Bool
  pub enable_autoconfig_checks : Bool

-- What the properties of the domain and the queries on its records return; of a record, `is_valid`
pub record Domain : Type 0 where
  pub name : Text
  pub creation : ℕ
  pub enable_dns_checks : Bool
  pub enable_dkim : Bool
  pub dkim_public_key : Text
  pub has_valid_mx : Bool
  pub is_blacklisted : Bool
  pub spf_record : Option Bool
  pub dkim_record : Option Bool
  pub dmarc_record : Option Bool
  pub autoconfig_record : Option Bool
  pub autodiscover_record : Option Bool

pub data Status : Type 0 where
  disabled pending fine critical : Status

-- `name.split(".", 1)[-1]`
abbrev pub tld : Text → Text
tld name = elim (split_once (codes ".") name) [ none ↦ name | some (_, rest) ↦ rest ]

unfoldable pub uses_a_reserved_tld : List Text → Domain → Bool
uses_a_reserved_tld reserved d = any (λ r. r == tld d.name) reserved

-- 24 hours, in seconds
unfoldable pub just_created : ℕ → Domain → Bool
just_created now d = ltb now (d.creation + 86400)

unfoldable pub awaiting_checks : ℕ → Domain → Bool
unfolding just_created
awaiting_checks now d = not d.has_valid_mx && just_created now d

-- `record is None or not record.is_valid`
abbrev pub is_bad : Option Bool → Bool
is_bad none = true
is_bad (some is_valid) = not is_valid

abbrev pub is_missing : Option Bool → Bool
is_missing none = true
is_missing (some _) = false

-- each test with the error that it appends, in order
unfoldable pub dns_checks : Config → Domain → List (Bool × Text)
dns_checks config d =
    (config.enable_mx_checks && not d.has_valid_mx, codes "mx")
    ∷ (config.enable_dnsbl_checks && d.is_blacklisted, codes "dnsbl")
    ∷ (config.enable_spf_checks && is_bad d.spf_record, codes "spf")
    ∷ (
      config.enable_dkim_checks
          && (d.enable_dkim && (not (d.dkim_public_key == []) && is_bad d.dkim_record)),
      codes "dkim",
    )
    ∷ (
      config.enable_dmarc_checks && (config.dmarc_check_is_critical && is_bad d.dmarc_record),
      codes "dmarc",
    )
    ∷ (config.enable_autoconfig_checks && is_missing d.autoconfig_record, codes "autoconfig")
    ∷ (config.enable_autoconfig_checks && is_missing d.autodiscover_record, codes "autodiscover")
    ∷ []

abbrev pub errors_of : List (Bool × Text) → List Text
errors_of [] = []
errors_of ((true, e) ∷ checks) = e ∷ errors_of checks
errors_of ((false, e) ∷ checks) = errors_of checks

unfoldable pub dns_errors : Config → Domain → List Text
dns_errors config d = errors_of (dns_checks config d)

abbrev pub status_of : List Text → Status
status_of [] = fine
status_of (_ ∷ _) = critical

unfoldable pub dns_global_status : List Text → ℕ → Config → Domain → Status
dns_global_status reserved now config d =
    if not d.enable_dns_checks || uses_a_reserved_tld reserved d
    then disabled
    else if awaiting_checks now d
    then pending
    else status_of (dns_errors config d)

-- Every check that is enabled passes.
abbrev pub Passes : Config → Domain → Type 0
Passes config d =
    (config.enable_mx_checks ≡ true → d.has_valid_mx ≡ true)
    × (config.enable_dnsbl_checks ≡ true → d.is_blacklisted ≡ false)
    × (config.enable_spf_checks ≡ true → d.spf_record ≡ some true)
    × (config.enable_dkim_checks ≡ true
        → d.enable_dkim ≡ true
        → (d.dkim_public_key == []) ≡ false
        → d.dkim_record ≡ some true)
    × (config.enable_dmarc_checks ≡ true
        → config.dmarc_check_is_critical ≡ true
        → d.dmarc_record ≡ some true)
    × (config.enable_autoconfig_checks ≡ true → is_missing d.autoconfig_record ≡ false)
    × (config.enable_autoconfig_checks ≡ true → is_missing d.autodiscover_record ≡ false)

errors_of-empty :
    (checks : List (Bool × Text))
    → status_of (errors_of checks) ≡ fine
    → All (λ (check : Bool × Text). check.0 ≡ false) checks
errors_of-empty [] h = tt
errors_of-empty ((true, e) ∷ checks) h = cc
errors_of-empty ((false, e) ∷ checks) h = (refl, errors_of-empty checks h)

double_negation : (b : Bool) → not b ≡ false → b ≡ true
double_negation true h = refl
double_negation false h = cc

not_bad : (record' : Option Bool) → is_bad record' ≡ false → record' ≡ some true
not_bad none h = cc
not_bad (some true) h = refl
not_bad (some false) h = cc

-- a test that found nothing, where it is made
off : (a b : Bool) → (a && b) ≡ false → a ≡ true → b ≡ false
off true b h e = h
off false b h e = cc

no_errors :
    (reserved : List Text) (now : ℕ) (config : Config) (d : Domain)
    → dns_global_status reserved now config d ≡ fine
    → status_of (dns_errors config d) ≡ fine
unfolding dns_global_status
no_errors reserved now config d h = ground arith

-- A domain whose status is "ok" passes every check that is enabled: it has a valid MX, is on no
-- black list, its SPF record, its DKIM record where it signs and has a key, and its DMARC record
-- where that check is critical are there and valid, and the autoconfig records are there.
dns_global_status-Passes :
    (reserved : List Text) (now : ℕ) (config : Config) (d : Domain)
    → dns_global_status reserved now config d ≡ fine
    → Passes config d
unfolding dns_errors dns_checks
dns_global_status-Passes reserved now config d h =
    let (mx, (dnsbl, (spf, (dkim, (dmarc, (autoconfig, (autodiscover, _))))))) =
      errors_of-empty (dns_checks config d) (no_errors reserved now config d h) in
    (
      λ e. double_negation d.has_valid_mx (off _ _ mx e),
      λ e. off _ _ dnsbl e,
      λ e. not_bad d.spf_record (off _ _ spf e),
      λ e f g. not_bad d.dkim_record (off _ _ (off _ _ (off _ _ dkim e) f) (ap not g)),
      λ e f. not_bad d.dmarc_record (off _ _ (off _ _ dmarc e) f),
      λ e. off _ _ autoconfig e,
      λ e. off _ _ autodiscover e,
    )
