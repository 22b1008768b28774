-- ===== src/Mail/Tests.antt =====
-- A domain with a quota, its status and a new administrator.
use mrt_post_office.Prelude.{
  ◌≡◌, refl, true, false, none, some, [], ◌∷◌, ◌==◌, nat_eq, ◌&&◌, if◌then◌else◌, inl, inr, arith,
  ◌⊎◌,
}
use mrt_post_office.Prelude.Chars.{codes}
use mrt_post_office.Prelude.Result.{ok}
use mrt_post_office.Permissions.Table.{Table, Key, key, mailbox, key_eq, find}
use mrt_post_office.Limits.World.{World}
use mrt_post_office.Limits.Handlers.{check_domain_limit}
use mrt_post_office.EmailUtils.Split.{split_mailbox_extension, split_address, split_local_part}
use mrt_post_office.Mail.Recipients.{
  Tables, Recipient, r_mailbox, set_recipients, add_recipients, add_recipient, new_target,
  has_recipient, is_in,
}
use mrt_post_office.Mail.Recipients.Exact.{has_recipient-set_recipients}
use mrt_post_office.Mail.Quota.{Fits, save, set_quota, set_quota-Fits, allocated_quota}
use mrt_post_office.Mail.Quota
use mrt_post_office.Mail.Dns.{
  Config, Passes, fine, dns_global_status, uses_a_reserved_tld, awaiting_checks, just_created,
  dns_errors, dns_checks,
}
use mrt_post_office.Mail.Dns
use mrt_post_office.Mail.Admins.{
  is_administrated, all_objects, add_admin, grant_each, mailbox_objects, alias_objects,
  add_admin-find,
}
use mrt_post_office.Mail.Admins

-- 10 of 12 are given to mailboxes
abbrev crowded : Quota.Domain
crowded = record {
  quota = 12;
  default_mailbox_quota = 2;
  mailbox_set = (1, 6) ∷ (2, 4) ∷ [];
  cached = none;
}

abbrev second : Quota.Mailbox
second = record { pk = 2; quota = 4; use_domain_quota = true }

abbrev larger : Quota.Mailbox
larger = record second { quota = 6 }

raised : (set_quota (some 6) false crowded second).0 ≡ ok larger
unfolding set_quota allocated_quota
raised = refl

set_quota-Fits_example :
    Fits (save larger (set_quota (some 6) false crowded second).1)
    ⊎ ((larger.quota ≡ 0) × (false ≡ true))
set_quota-Fits_example =
    set_quota-Fits (some 6) false crowded second larger refl (inl refl)
      (inr ((omega arith, (omega arith, tt)), omega arith)) raised

-- What the object of the domain has cached is not the sum once the mailbox is saved: another
-- mailbox then gets more than there is.
overdrawn :
    (set_quota
      (some 8)
      false
      (save larger (set_quota (some 6) false crowded second).1)
      (record { pk = 1; quota = 6; use_domain_quota = true })).0
    ≡ ok (record { pk = 1; quota = 8; use_domain_quota = true })
unfolding set_quota allocated_quota
overdrawn = refl

abbrev config : Config
config = record {
  enable_mx_checks = true;
  enable_dnsbl_checks = true;
  enable_spf_checks = true;
  enable_dkim_checks = false;
  enable_dmarc_checks = true;
  dmarc_check_is_critical = false;
  enable_autoconfig_checks = false;
}

abbrev healthy : Dns.Domain
healthy = record {
  name = codes "a.fr";
  creation = 0;
  enable_dns_checks = true;
  enable_dkim = false;
  dkim_public_key = [];
  has_valid_mx = true;
  is_blacklisted = false;
  spf_record = some true;
  dkim_record = none;
  dmarc_record = none;
  autoconfig_record = none;
  autodiscover_record = none;
}

healthy_status : dns_global_status (codes "test" ∷ []) 5 config healthy ≡ fine
unfolding dns_global_status uses_a_reserved_tld awaiting_checks just_created dns_errors dns_checks
healthy_status = refl

abbrev site : Admins.Domain
site = record {
  pk = 7;
  mailbox_set = record { pk = 3; user_pk = 4; may_add_domain = false } ∷ [];
  alias_set = record { pk = 5; internal = true } ∷ [];
}

abbrev no_rows : World
no_rows = record {
  accesses = [];
  users = [];
  domain_rows = [];
  alias_domains = [];
  mailbox_domains = [];
  aliases = [];
}

abbrev granted_rows : Table
granted_rows = grant_each (1 ∷ []) 2 (all_objects false site) no_rows.accesses

added : add_admin false (1 ∷ []) 2 site no_rows [] ≡ ok granted_rows
unfolding add_admin check_domain_limit
added = refl

abbrev inbox : Key
inbox = key 2 (record { content_type = mailbox; object_id = 3 })

add_admin-find_example : find inbox granted_rows ≡ (
    if 2 == inbox.account && is_administrated site inbox.object
    then some false
    else find inbox no_rows.accesses)
add_admin-find_example = add_admin-find false (1 ∷ []) 2 site no_rows [] granted_rows inbox added

-- every domain is local, and has a mailbox for each local part
abbrev local_tables : Tables
local_tables = record {
  is_domain = λ d. true;
  target_allowed = λ d. false;
  uses_external = λ a. false;
  find_mailbox = λ local_part d. some 3;
  is_alias = λ a. false;
}

abbrev bob : Recipient
bob = record { address = codes "bob@a.fr"; target = r_mailbox 4 }

abbrev amy : Recipient
amy = record { address = codes "amy@a.fr"; target = r_mailbox 3 }

replaced :
    set_recipients local_tables (codes "all@a.fr") (codes "amy@a.fr" ∷ []) (bob ∷ [])
    ≡ ok (amy ∷ [])
unfolding set_recipients add_recipients add_recipient new_target split_mailbox_extension
    split_address split_local_part
replaced = refl

has_recipient-set_recipients_example :
    has_recipient (codes "bob@a.fr") (amy ∷ []) ≡ is_in (codes "amy@a.fr" ∷ []) (codes "bob@a.fr")
has_recipient-set_recipients_example =
    has_recipient-set_recipients local_tables (codes "all@a.fr") (codes "bob@a.fr")
      (codes "amy@a.fr" ∷ []) (bob ∷ []) (amy ∷ []) (λ e. cc) replaced
