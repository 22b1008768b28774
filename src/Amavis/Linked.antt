-- ===== src/Amavis/Linked.antt =====
-- Every user has a policy that is in the table: what the receivers of the signals keep, also where
-- they raise an exception.
pub mod Rows
pub mod Calls
use mrt_post_office.Prelude.{
  ℕ, ◌+◌, Bool, true, false, not, ◌&&◌, ◌||◌, ◌≡◌, refl, Option, none, some, List, [], ◌∷◌, ◌++◌,
  map, Text, if◌then◌else◌, ◌==◌, ==_iff, nat_eq, text_eq, filter, any, is_some, All, arith,
  Bool-cases, inl, inr, ap, sym, ◌∙◌, subst, if_either,
}
use mrt_post_office.Prelude.Result.{Result, ok, err, ◌>>=◌}
use mrt_post_office.EmailUtils.Split.{first_is}
use mrt_post_office.Amavis.Tables.{
  Policy, UserRow, Tables, Outcome, Error, take, find_user, find_policies, get, save_policy,
  delete_policy, new_policy, integrity_error,
}
use mrt_post_office.Amavis.Records.{
  create_user_and_policy, create_user_and_use_policy, create_user_and_use_policy_named,
  update_user_and_policy, update_found, delete_user_and_policy, delete_found, delete_user, new_user,
  append_user, get_or_create_policy, create_if_new, get_or_create_user, save_renamed, rename_user,
}
use mrt_post_office.Amavis.Learning.{Conf}
use mrt_post_office.Amavis.Handlers.{
  only_tables, manage_domain_policy, on_domain_deleted, on_domain_alias_created,
  on_domain_alias_deleted, on_mailbox_modified, on_mailbox_deleted, on_aliasrecipient_created,
  on_mailboxalias_deleted, follow_address, update_if_found, use_policy, update_or_create_user,
  use_first,
}
use mrt_post_office.Amavis.Linked.Rows.{
  has_pk, Linked, IsLinked, Linked-grow, has_pk_last, Linked-save_policy, Linked-add, Linked-filter,
  Linked-map, delete_policy-IsLinked, found_has_pk,
}
use mrt_post_office.Amavis.Linked.Calls.{
  stored, same, create_user_and_policy-IsLinked, use_named, stored-only_tables, use_first-IsLinked,
  delete_user_and_policy-IsLinked, update_user_and_policy-IsLinked, update_if_found-IsLinked,
}

-- The signals
pub data Event : Type 0 where
  domain_saved : (created : Bool) → (oldname name : Text) → Event
  domain_deleted : Text → Event
  domain_alias_saved : (created : Bool) → (name target : Text) → Event
  domain_alias_deleted : Text → Event
  mailbox_saved : Option Text → Text → Event
  mailbox_deleted : Text → Event
  recipient_saved : Option Text → Bool → Text → Event
  alias_deleted : Text → Event

-- What is stored once the receiver is through, or has raised
abbrev pub handle : Conf → Event → Tables → Tables
handle conf (domain_saved created oldname name) t =
    stored same (manage_domain_policy created oldname name t)
handle conf (domain_deleted name) t = on_domain_deleted name t
handle conf (domain_alias_saved created name target) t =
    stored same (on_domain_alias_created created name target t)
handle conf (domain_alias_deleted name) t = on_domain_alias_deleted name t
handle conf (mailbox_saved old full_address) t =
    stored same (on_mailbox_modified conf old full_address t)
handle conf (mailbox_deleted full_address) t = on_mailbox_deleted conf full_address t
handle conf (recipient_saved full_address is_alias email) t =
    on_aliasrecipient_created conf full_address is_alias email t
handle conf (alias_deleted address) t = on_mailboxalias_deleted conf address t

-- A receiver that acts on a condition
stays_if :
    (b : Bool) (t after : Tables) → IsLinked t → IsLinked after → IsLinked (if b then t else after)
stays_if b t after linked changed =
    if_either b (λ c. IsLinked (if c then t else after)) linked changed

-- Every receiver of a signal about domains, domain aliases, mailboxes and aliases, whether it
-- returns or raises, leaves each user of Amavis with a policy that is in the table, where that
-- was so before.
pub handle-IsLinked :
    (conf : Conf) (event : Event) (t : Tables) → IsLinked t → IsLinked (handle conf event t)
unfolding manage_domain_policy on_domain_deleted on_domain_alias_created
    create_user_and_use_policy_named on_domain_alias_deleted delete_user on_mailbox_modified
    on_mailbox_deleted on_aliasrecipient_created on_mailboxalias_deleted
handle-IsLinked conf (domain_saved true oldname name) t linked =
    subst IsLinked (sym (stored-only_tables (create_user_and_policy (b'@' ∷ name) 7 t)))
      (create_user_and_policy-IsLinked (b'@' ∷ name) 7 t linked)
handle-IsLinked conf (domain_saved false oldname name) t linked =
    update_user_and_policy-IsLinked (b'@' ∷ oldname) (b'@' ∷ name) t linked
handle-IsLinked conf (domain_deleted name) t linked =
    delete_user_and_policy-IsLinked (b'@' ∷ name) t linked
handle-IsLinked conf (domain_alias_saved true name target) t linked =
    use_named (b'@' ∷ name) 7 (find_policies (take 32 (b'@' ∷ target)) t.policies)
      (take 32 (b'@' ∷ target)) t refl linked
handle-IsLinked conf (domain_alias_saved false name target) t linked = linked
handle-IsLinked conf (domain_alias_deleted name) t linked =
    Linked-filter t.policies (λ u. not (u.email == b'@' ∷ name)) t.users linked
handle-IsLinked conf (mailbox_saved none full_address) t linked = linked
handle-IsLinked conf (mailbox_saved (some old) full_address) t linked =
    if_either (not conf.manual_learning || full_address == old)
      (λ b. IsLinked (
        stored same
          (if b then ok t else update_if_found (find_user old t.users) old full_address t)))
      linked (update_if_found-IsLinked (find_user old t.users) old full_address t linked)
handle-IsLinked conf (mailbox_deleted full_address) t linked =
    stays_if (not conf.manual_learning) t (delete_user_and_policy (b'@' ∷ full_address) t) linked
      (delete_user_and_policy-IsLinked (b'@' ∷ full_address) t linked)
handle-IsLinked conf (recipient_saved none is_alias email) t linked = linked
handle-IsLinked conf (recipient_saved (some full_address) is_alias email) t linked =
    stays_if (not conf.manual_learning || (not conf.user_level_learning || not is_alias)) t
      (use_first (find_policies full_address t.policies) email t) linked
      (use_first-IsLinked (find_policies full_address t.policies) full_address email t refl linked)
handle-IsLinked conf (alias_deleted address) t linked =
    let rest = record t { users = filter (λ u. not (u.email == address)) t.users } in
    stays_if (not conf.manual_learning) t (if first_is (b'@' ∷ []) address then t else rest) linked
      (stays_if (first_is (b'@' ∷ []) address) t rest linked
        (Linked-filter t.policies (λ u. not (u.email == address)) t.users linked))
