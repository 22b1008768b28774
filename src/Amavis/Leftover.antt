-- ===== src/Amavis/Leftover.antt =====
-- The policy of a mailbox stays when the mailbox is deleted; and those of a domain with a long name are not
-- found.
use mrt_post_office.Prelude.{
  ℕ, suc, zero, ◌+◌, ◌≤◌, ◌<◌, true, false, not, ◌≡◌, ◌≢◌, refl, Option, none, some, List, [], ◌∷◌,
  ◌++◌, Text, if◌then◌else◌, ◌==◌, ==_ne, nat_eq, text_eq, any, All, arith, ap, ◌∙◌, if_false,
  length, Bool, filter, ==_refl,
}
use mrt_post_office.Prelude.Result.{ok, err}
use mrt_post_office.EmailUtils.Split.{first_is}
use mrt_post_office.Amavis.Tables.{
  Policy, UserRow, Tables, does_not_exist, take, find_user, find_policies, save_policy, new_policy,
}
use mrt_post_office.Amavis.Records.{
  create_user_and_policy, create_if_new, new_user, delete_user_and_policy,
}
use mrt_post_office.Amavis.Learning.{
  Conf, has_username, set_username, setup_manual_learning_for_domain,
  setup_manual_learning_for_mbox, setup_for_mailbox, Mbox, mailbox, is_empty,
}
use mrt_post_office.Amavis.Handlers.{on_mailbox_deleted, on_mailboxalias_deleted}

length-take : (n : ℕ) (s : Text) → length (take n s) ≤ n
length-take zero s = omega arith
length-take (suc n) [] = omega arith
length-take (suc n) (c ∷ s) = omega (arith, length-take n s)

length-take_le : (n : ℕ) (s : Text) → length (take n s) ≤ length s
length-take_le zero s = omega arith
length-take_le (suc n) [] = omega arith
length-take_le (suc n) (c ∷ s) = omega (arith, length-take_le n s)

length-take_eq : (n : ℕ) (s : Text) → n ≤ length s → length (take n s) ≡ n
length-take_eq zero s long = refl
length-take_eq (suc n) [] long = omega arith
length-take_eq (suc n) (c ∷ s) long = omega (arith, length-take_eq n s)

take_twice : (n : ℕ) (s : Text) → take n (take n s) ≡ take n s
take_twice zero s = refl
take_twice (suc n) [] = refl
take_twice (suc n) (c ∷ s) = ap (λ t. c ∷ t) (take_twice n s)

-- No policy has a name of more than 32 characters.
none_found :
    (name : Text) (ps : List Policy)
    → 32 < length name
    → All (λ p. length p.policy_name ≤ 32) ps
    → find_policies name ps ≡ []
none_found name [] long fit = refl
none_found name (p ∷ ps) long (here, rest) =
    if_false _ (==_ne p.policy_name name (λ e. let l = ap length e in omega arith))
    ∙ none_found name ps long rest

pub setup_manual_learning_for_domain_long :
    (name : Text) (t : Tables)
    → 32 ≤ length name
    → All (λ p. length p.policy_name ≤ 32) t.policies
    → any (has_username name) t.policies ≡ false
    → setup_manual_learning_for_domain name t ≡ err (does_not_exist, t)
unfolding setup_manual_learning_for_domain
setup_manual_learning_for_domain_long name t long fit unset =
    let l = length-take_eq 32 name long in
    let found = none_found (b'@' ∷ take 32 name) t.policies (omega arith) fit in
    rw unset (rw found refl)

-- No user is found where the rows of others are taken away.
find_user-filter :
    (name : Text) (p : UserRow → Bool) (users : List UserRow)
    → find_user name users ≡ none
    → find_user name (filter p users) ≡ none
find_user-filter name p [] h = refl
find_user-filter name p (u ∷ users) h = ground (arith, find_user-filter name p users)

find_user-filter_self :
    (name : Text) (users : List UserRow)
    → find_user name (filter (λ u. not (u.email == name)) users) ≡ none
find_user-filter_self name [] = refl
find_user-filter_self name (u ∷ users) = ground (arith, find_user-filter_self name users)

find_user-append_other :
    (name : Text) (users : List UserRow) (u : UserRow)
    → (u.email == name) ≡ false
    → find_user name (users ++ u ∷ []) ≡ find_user name users
find_user-append_other name [] u ne = if_false (some u) ne
find_user-append_other name (v ∷ users) u ne =
    ap (λ o. if v.email == name then some v else o) (find_user-append_other name users u ne)

-- The call that creates a user changes no policy and no user of another name.
create_if_new-other :
    (name other : Text) (pk : ℕ) (t : Tables) (found : Option UserRow)
    → name ≢ other
    → find_user other (create_if_new found (new_user name 7 pk) t).users ≡ find_user other t.users
create_if_new-other name other pk t none ne =
    find_user-append_other other t.users (new_user name 7 pk) (==_ne name other ne)
create_if_new-other name other pk t (some u) ne = refl

policies-create_if_new :
    (found : Option UserRow) (new : UserRow) (t : Tables)
    → (create_if_new found new t).policies ≡ t.policies
policies-create_if_new none new t = refl
policies-create_if_new (some u) new t = refl

-- A policy that is added is found, also once a user name is set.
policy_found :
    (pk : ℕ) (name username : Text) (ps : List Policy)
    → is_empty (
        find_policies name (save_policy pk (set_username username) (ps ++ new_policy pk name ∷ [])))
      ≡ false
policy_found pk name username [] = ground (arith, ==_refl pk, ==_refl name)
policy_found pk name username (p ∷ ps) = ground (arith, policy_found pk name username ps)

-- a mailbox without aliases
abbrev pub alone : Text → Mbox
alone full_address = mailbox (record { full_address = full_address; alias_addresses = [] })

-- what is stored for it
abbrev set_up : Text → Tables → Tables
set_up full_address t =
    let pname = take 32 full_address in
    let p = new_policy t.next_pk pname in
    let created =
      create_if_new (find_user pname t.users) (new_user pname 7 p.pk)
        (record t { policies = t.policies ++ p ∷ []; next_pk = t.next_pk + 1 }) in
    record created { policies = save_policy p.pk (set_username full_address) created.policies }

setup_new :
    (full_address : Text) (t : Tables)
    → find_policies (take 32 full_address) t.policies ≡ []
    → setup_manual_learning_for_mbox (alone full_address) t ≡ ok (true, set_up full_address t)
unfolding setup_for_mailbox create_user_and_policy
setup_new full_address t absent = rw (take_twice 32 full_address) (rw absent refl)

-- The receivers when a mailbox is deleted: its own alias goes first, then itself.
abbrev pub mailbox_gone : Conf → Text → Tables → Tables
mailbox_gone conf full_address t =
    on_mailbox_deleted conf full_address (on_mailboxalias_deleted conf full_address t)

without_user :
    (conf : Conf) (full_address : Text) (t : Tables)
    → conf.manual_learning ≡ true
    → first_is (b'@' ∷ []) full_address ≡ false
    → find_user (b'@' ∷ full_address) t.users ≡ none
    → mailbox_gone conf full_address t
      ≡ record t { users = filter (λ u. not (u.email == full_address)) t.users }
unfolding on_mailbox_deleted on_mailboxalias_deleted delete_user_and_policy
without_user conf full_address t enabled plain unused =
    rw
      (
        enabled,
        plain,
        find_user-filter (b'@' ∷ full_address) (λ u. not (u.email == full_address)) t.users unused,
      )
      refl

-- Manual learning that is set up for a mailbox without aliases other than its own, where learning
-- is enabled, the address does not start with an "@", the policy is new and no user is named
-- after the address with an "@" in front: after the receivers of the deletion of its own alias
-- and then of the mailbox no user has the address, but the policy stays, so that nothing is set
-- up for another mailbox with the address.
pub on_mailbox_deleted_leaves :
    (conf : Conf) (full_address : Text) (t : Tables)
    → conf.manual_learning ≡ true
    → first_is (b'@' ∷ []) full_address ≡ false
    → find_policies (take 32 full_address) t.policies ≡ []
    → find_user (b'@' ∷ full_address) t.users ≡ none
    → (after : Tables) × (setup_manual_learning_for_mbox (alone full_address) t ≡ ok (true, after))
      × (find_user full_address (mailbox_gone conf full_address after).users ≡ none)
      × (setup_manual_learning_for_mbox (alone full_address) (mailbox_gone conf full_address after)
          ≡ ok (false, mailbox_gone conf full_address after))
unfolding setup_for_mailbox
on_mailbox_deleted_leaves conf full_address t enabled plain absent unused =
    let pname = take 32 full_address in
    let ne : pname ≢ b'@' ∷ full_address = (λ e.
      let shorter = length-take_le 32 full_address in let same = ap length e in omega arith) in
    let p = new_policy t.next_pk pname in
    let grown = record t { policies = t.policies ++ p ∷ []; next_pk = t.next_pk + 1 } in
    let after = set_up full_address t in
    let unused_after =
      create_if_new-other pname (b'@' ∷ full_address) t.next_pk grown (find_user pname t.users) ne
      ∙ unused in
    let gone = without_user conf full_address after enabled plain unused_after in
    let found =
      ap (λ ps. is_empty (find_policies pname (save_policy p.pk (set_username full_address) ps)))
        (policies-create_if_new (find_user pname t.users) (new_user pname 7 p.pk) grown)
      ∙ policy_found t.next_pk pname full_address t.policies in
    (
      after,
      setup_new full_address t absent,
      ap (λ (x : Tables). find_user full_address x.users) gone
          ∙ find_user-filter_self full_address after.users,
      if_false _ (ap (λ (x : Tables). is_empty (find_policies pname x.policies)) gone ∙ found),
    )
