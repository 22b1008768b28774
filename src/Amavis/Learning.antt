-- ===== src/Amavis/Learning.antt =====
-- Manual learning: manual_learning_enabled, setup_manual_learning_for_domain and
-- setup_manual_learning_for_mbox of modoboa/amavis/lib.py.
use mrt_post_office.Prelude.{
  ℕ, Bool, true, false, not, ◌||◌, Option, none, some, List, [], ◌∷◌, Text, if◌then◌else◌, ◌==◌,
  nat_eq, text_eq, any,
}
use mrt_post_office.Prelude.Result.{ok, ◌>>=◌}
use mrt_post_office.Amavis.Tables.{Policy, Tables, Outcome, take, find_policies, get, save_policy}
use mrt_post_office.Amavis.Records.{create_user_and_policy, create_user_and_use_policy}

pub record Conf : Type 0 where
  pub manual_learning : Bool
  pub user_level_learning : Bool
  pub domain_level_learning : Bool

unfoldable pub manual_learning_enabled : Conf → (is_super_admin can_view_domain : Bool) → Bool
manual_learning_enabled conf is_super_admin can_view_domain =
    if not conf.manual_learning
    then false
    else if is_super_admin
    then true
    else if can_view_domain
    then conf.domain_level_learning || conf.user_level_learning
    else conf.user_level_learning

abbrev pub has_username : Text → Policy → Bool
has_username name p = elim p.sa_username [ none ↦ false | some username ↦ username == name ]

abbrev pub set_username : Text → Policy → Policy
set_username name p = record p { sa_username = some name }

-- whether learning has been set up
unfoldable pub setup_manual_learning_for_domain : Text → Tables → Outcome (Bool × Tables)
setup_manual_learning_for_domain name t =
    if any (has_username name) t.policies then ok (false, t) else (do
      p ← get (find_policies (b'@' ∷ take 32 name) t.policies) t
      ok (true, record t { policies = save_policy p.pk (set_username name) t.policies }))

-- `for alias in mbox.alias_addresses`
abbrev pub use_for_each : List Text → ℕ → Tables → Outcome Tables
use_for_each [] pk t = ok t
use_for_each (alias ∷ aliases) pk t = do
  after ← create_user_and_use_policy alias pk 7 t
  use_for_each aliases pk after

-- `not ... .exists()`
abbrev pub is_empty : List Policy → Bool
is_empty [] = true
is_empty (p ∷ policies) = false

-- A mailbox, with its address and those of its aliases
pub record Mailbox : Type 0 where
  pub full_address : Text
  pub alias_addresses : List Text

-- What the function is called with: a mailbox, the recipient of an alias with its mailbox, where it
-- has one, or anything else.
pub data Mbox : Type 0 where
  mailbox : Mailbox → Mbox
  alias_recipient : Option Mailbox → Mbox
  other : Mbox

abbrev pub mailbox_of : Mbox → Option Mailbox
mailbox_of (mailbox m) = some m
mailbox_of (alias_recipient r_mailbox) = r_mailbox
mailbox_of other = none

unfoldable pub setup_for_mailbox : Option Mailbox → Tables → Outcome (Bool × Tables)
unfolding create_user_and_policy
setup_for_mailbox none t = ok (false, t)
setup_for_mailbox (some m) t =
    let pname = take 32 m.full_address in
    if is_empty (find_policies pname t.policies)
    then (do
      created ← create_user_and_policy pname 7 t
      let renamed = record created.1 {
        policies = save_policy created.0.pk (set_username m.full_address) created.1.policies;
      }
      after ← use_for_each m.alias_addresses created.0.pk renamed
      ok (true, after))
    else ok (false, t)

abbrev pub setup_manual_learning_for_mbox : Mbox → Tables → Outcome (Bool × Tables)
setup_manual_learning_for_mbox mbox t = setup_for_mailbox (mailbox_of mbox) t
