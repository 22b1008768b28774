-- ===== src/Amavis/Handlers.antt =====
-- The receivers of modoboa/amavis/handlers.py: what becomes of the records when domains, domain
-- aliases, mailboxes and aliases are saved or deleted.
use mrt_post_office.Prelude.{
  ℕ, Bool, true, false, not, ◌||◌, Option, none, some, List, [], ◌∷◌, map, Text, if◌then◌else◌,
  ◌==◌, nat_eq, text_eq, filter,
}
use mrt_post_office.Prelude.Result.{ok, ◌>>=◌}
use mrt_post_office.EmailUtils.Split.{first_is}
use mrt_post_office.Amavis.Tables.{Policy, UserRow, Tables, Outcome, take, find_user, find_policies}
use mrt_post_office.Amavis.Records.{
  create_user_and_policy, create_user_and_use_policy_named, update_user_and_policy, update_found,
  delete_user_and_policy, delete_user, new_user, append_user, set_email,
}
use mrt_post_office.Amavis.Learning.{Conf}

-- the outcome without the policy
abbrev pub only_tables : {A : Type 0} → Outcome (A × Tables) → Outcome Tables
only_tables result = do pair ← result; ok pair.1

unfoldable pub manage_domain_policy :
    (created : Bool) → (oldname name : Text) → Tables → Outcome Tables
manage_domain_policy true oldname name t = only_tables (create_user_and_policy (b'@' ∷ name) 7 t)
manage_domain_policy false oldname name t = update_user_and_policy (b'@' ∷ oldname) (b'@' ∷ name) t

unfoldable pub on_domain_deleted : Text → Tables → Tables
on_domain_deleted name t = delete_user_and_policy (b'@' ∷ name) t

unfoldable pub on_domain_alias_created :
    (created : Bool) → (name target : Text) → Tables → Outcome Tables
on_domain_alias_created false name target t = ok t
on_domain_alias_created true name target t =
    create_user_and_use_policy_named (b'@' ∷ name) (b'@' ∷ target) 7 t

unfoldable pub on_domain_alias_deleted : Text → Tables → Tables
on_domain_alias_deleted name t = delete_user (b'@' ∷ name) t

-- the columns of a policy that follow the address
abbrev pub follow_address : Text → Policy → Policy
follow_address full_address p = record p {
  policy_name = take 32 full_address;
  sa_username = some full_address;
}

-- a missing record is no error here
abbrev pub update_if_found : Option UserRow → (old new : Text) → Tables → Outcome Tables
update_if_found none old new t = ok t
update_if_found (some u) old new t =
    update_found (some u) (set_email new) old new (follow_address new) t

-- `none` where the mailbox has no `old_full_address`
unfoldable pub on_mailbox_modified : Conf → Option Text → Text → Tables → Outcome Tables
on_mailbox_modified conf none full_address t = ok t
on_mailbox_modified conf (some old) full_address t =
    if not conf.manual_learning || full_address == old
    then ok t
    else update_if_found (find_user old t.users) old full_address t

unfoldable pub on_mailbox_deleted : Conf → Text → Tables → Tables
on_mailbox_deleted conf full_address t =
    if not conf.manual_learning then t else delete_user_and_policy (b'@' ∷ full_address) t

abbrev pub use_policy : ℕ → Text → List UserRow → List UserRow
use_policy pk email users =
    map
      (λ u.
        if u.email == email then record u { policy = pk; fullname = email; priority = 7 } else u)
      users

-- `Users.objects.update_or_create(email=email, defaults=...)`
abbrev pub update_or_create_user : Option UserRow → Text → ℕ → Tables → Tables
update_or_create_user none email pk t = append_user (new_user email 7 pk) t
update_or_create_user (some u) email pk t = record t { users = use_policy pk email t.users }

-- `.first()` of the policies of the name of the mailbox
abbrev pub use_first : List Policy → Text → Tables → Tables
use_first [] email t = t
use_first (p ∷ more) email t = update_or_create_user (find_user email t.users) email p.pk t

-- The address of the mailbox of the recipient, where it has one, and the alias.
unfoldable pub on_aliasrecipient_created :
    Conf → Option Text → (is_alias : Bool) → (email : Text) → Tables → Tables
on_aliasrecipient_created conf none is_alias email t = t
on_aliasrecipient_created conf (some full_address) is_alias email t =
    if not conf.manual_learning || (not conf.user_level_learning || not is_alias)
    then t
    else use_first (find_policies full_address t.policies) email t

unfoldable pub on_mailboxalias_deleted : Conf → Text → Tables → Tables
on_mailboxalias_deleted conf address t =
    if not conf.manual_learning
    then t
    else if first_is (b'@' ∷ []) address
    then t
    else record t { users = filter (λ u. not (u.email == address)) t.users }
