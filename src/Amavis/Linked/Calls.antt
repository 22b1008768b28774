-- ===== src/Amavis/Linked/Calls.antt =====
-- The calls of modoboa/amavis/lib.py keep the links.
use mrt_post_office.Prelude.{
  ℕ, true, not, ◌&&◌, ◌≡◌, refl, Option, none, some, List, [], ◌∷◌, Text, if◌then◌else◌, ◌==◌,
  nat_eq, text_eq, is_some, if_either, ap, ◌∙◌,
}
use mrt_post_office.Prelude.Result.{ok, err, ◌>>=◌}
use mrt_post_office.Amavis.Tables.{
  Policy, UserRow, Tables, Outcome, take, find_user, find_policies, get, save_policy, new_policy,
  integrity_error,
}
use mrt_post_office.Amavis.Records.{
  create_user_and_policy, create_user_and_use_policy, update_user_and_policy, update_found,
  delete_user_and_policy, delete_found, new_user, get_or_create_policy, create_if_new,
  get_or_create_user, save_renamed, rename_user, set_names, set_email,
}
use mrt_post_office.Amavis.Handlers.{
  only_tables, follow_address, update_if_found, update_or_create_user, use_first,
}
use mrt_post_office.Amavis.Linked.Rows.{
  has_pk, IsLinked, Linked-grow, has_pk_last, Linked-save_policy, Linked-add, Linked-map,
  delete_policy-IsLinked, found_has_pk,
}

-- What is stored after a call, by an exception as well
abbrev pub stored : {A : Type 0} → (A → Tables) → Outcome A → Tables
stored tables (ok a) = tables a
stored tables (err (e, t)) = t

abbrev pub same : Tables → Tables
same t = t

-- A call keeps the links and gives a policy of the table.
abbrev GivesPolicy : Outcome (Policy × Tables) → Type 0
GivesPolicy (ok (p, t)) = IsLinked t × (has_pk p.pk t.policies ≡ true)
GivesPolicy (err (e, t)) = IsLinked t

get_or_create_policy-GivesPolicy :
    (rows : List Policy) (name : Text) (t : Tables)
    → find_policies name t.policies ≡ rows
    → IsLinked t
    → GivesPolicy (get_or_create_policy rows name t)
get_or_create_policy-GivesPolicy [] name t found linked = (
  Linked-grow t.policies (new_policy t.next_pk name) t.users linked,
  has_pk_last t.policies (new_policy t.next_pk name),
)
get_or_create_policy-GivesPolicy (p ∷ []) name t found linked =
    (linked, found_has_pk name t.policies p [] found)
get_or_create_policy-GivesPolicy (p ∷ q ∷ more) name t found linked = linked

create_if_new-IsLinked :
    (found : Option UserRow) (new : UserRow) (t : Tables)
    → IsLinked t
    → has_pk new.policy t.policies ≡ true
    → IsLinked (create_if_new found new t)
create_if_new-IsLinked none new t linked held = Linked-add t.policies t.users new linked held
create_if_new-IsLinked (some u) new t linked held = linked

create_with :
    (name : Text) (priority : ℕ) (found : Outcome (Policy × Tables))
    → GivesPolicy found
    → IsLinked (
        stored
          (λ (pair : Policy × Tables). pair.1)
          (found >>= (λ found. ok (
            found.0,
            create_if_new
                (find_user name found.1.users)
                (new_user name priority found.0.pk)
                found.1,
          ))))
create_with name priority (ok (p, t)) (linked, held) =
    create_if_new-IsLinked (find_user name t.users) (new_user name priority p.pk) t linked held
create_with name priority (err (e, t)) linked = linked

pub create_user_and_policy-IsLinked :
    (name : Text) (priority : ℕ) (t : Tables)
    → IsLinked t
    → IsLinked (stored (λ pair. pair.1) (create_user_and_policy name priority t))
unfolding create_user_and_policy
create_user_and_policy-IsLinked name priority t linked =
    create_with name priority
      (get_or_create_policy (find_policies (take 32 name) t.policies) (take 32 name) t)
      (get_or_create_policy-GivesPolicy (find_policies (take 32 name) t.policies) (take 32 name) t
        refl linked)

pub get_or_create_user-IsLinked :
    (found : Option UserRow) (new : UserRow) (t : Tables)
    → IsLinked t
    → has_pk new.policy t.policies ≡ true
    → IsLinked (stored same (get_or_create_user found new t))
get_or_create_user-IsLinked none new t linked held = Linked-add t.policies t.users new linked held
get_or_create_user-IsLinked (some u) new t linked held =
    if_either (u.fullname == new.fullname && (u.priority == new.priority && u.policy == new.policy))
      (λ b. IsLinked (stored same (if b then ok t else err (integrity_error, t)))) linked linked

pub use_named :
    (name : Text) (priority : ℕ) (rows : List Policy) (policy : Text) (t : Tables)
    → find_policies policy t.policies ≡ rows
    → IsLinked t
    → IsLinked (stored same (get rows t >>= (λ p. create_user_and_use_policy name p.pk priority t)))
unfolding create_user_and_use_policy
use_named name priority [] policy t found linked = linked
use_named name priority (p ∷ []) policy t found linked =
    get_or_create_user-IsLinked (find_user name t.users) (new_user name priority p.pk) t linked
      (found_has_pk policy t.policies p [] found)
use_named name priority (p ∷ q ∷ more) policy t found linked = linked

pub save_renamed-IsLinked :
    (rename : UserRow → UserRow) (old new : Text) (t : Tables)
    → ((u : UserRow) → (rename u).policy ≡ u.policy)
    → IsLinked t
    → IsLinked (stored same (save_renamed rename old new t))
save_renamed-IsLinked rename old new t keeps linked =
    if_either (not (new == old) && is_some (find_user new t.users))
      (λ b. IsLinked (
        stored same (
          if b
          then err (integrity_error, t)
          else ok (record t { users = rename_user rename old t.users }))))
      linked
      (Linked-map t.policies (λ u. if u.email == old then rename u else u) t.users
        (λ u h.
          if_either (u.email == old)
            (λ b. has_pk (if b then rename u else u).policy t.policies ≡ true)
            (ap (λ k. has_pk k t.policies) (keeps u) ∙ h) h)
        linked)

pub update_found-IsLinked :
    (found : Option UserRow) (rename : UserRow → UserRow) (old new : Text)
    (change : Policy → Policy) (t : Tables)
    → ((u : UserRow) → (rename u).policy ≡ u.policy)
    → ((p : Policy) → (change p).pk ≡ p.pk)
    → IsLinked t
    → IsLinked (stored same (update_found found rename old new change t))
update_found-IsLinked none rename old new change t same_policy keeps linked = linked
update_found-IsLinked (some u) rename old new change t same_policy keeps linked =
    save_renamed-IsLinked rename old new
      (record t { policies = save_policy u.policy change t.policies }) same_policy
      (Linked-save_policy u.policy change t.policies t.users keeps linked)

pub delete_found-IsLinked :
    (found : Option UserRow) (t : Tables) → IsLinked t → IsLinked (delete_found found t)
delete_found-IsLinked none t linked = linked
delete_found-IsLinked (some u) t linked = delete_policy-IsLinked u.policy t linked

pub stored-only_tables :
    {A : Type 0} (result : Outcome (A × Tables))
    → stored same (only_tables result) ≡ stored (λ pair. pair.1) result
stored-only_tables (ok pair) = refl
stored-only_tables (err failure) = refl

pub update_or_create_user-IsLinked :
    (found : Option UserRow) (email : Text) (pk : ℕ) (t : Tables)
    → IsLinked t
    → has_pk pk t.policies ≡ true
    → IsLinked (update_or_create_user found email pk t)
update_or_create_user-IsLinked none email pk t linked held =
    Linked-add t.policies t.users (new_user email 7 pk) linked held
update_or_create_user-IsLinked (some u) email pk t linked held =
    Linked-map t.policies
      (λ u.
        if u.email == email then record u { policy = pk; fullname = email; priority = 7 } else u)
      t.users
      (λ u h.
        if_either (u.email == email)
          (λ b.
            has_pk
              (if b then record u { policy = pk; fullname = email; priority = 7 } else u).policy
              t.policies
            ≡ true)
          held h)
      linked

pub use_first-IsLinked :
    (rows : List Policy) (name email : Text) (t : Tables)
    → find_policies name t.policies ≡ rows
    → IsLinked t
    → IsLinked (use_first rows email t)
use_first-IsLinked [] name email t found linked = linked
use_first-IsLinked (p ∷ more) name email t found linked =
    update_or_create_user-IsLinked (find_user email t.users) email p.pk t linked
      (found_has_pk name t.policies p more found)

pub delete_user_and_policy-IsLinked :
    (name : Text) (t : Tables) → IsLinked t → IsLinked (delete_user_and_policy name t)
unfolding delete_user_and_policy
delete_user_and_policy-IsLinked name t linked =
    delete_found-IsLinked (find_user name t.users) t linked

pub update_user_and_policy-IsLinked :
    (oldname newname : Text) (t : Tables)
    → IsLinked t
    → IsLinked (stored same (update_user_and_policy oldname newname t))
unfolding update_user_and_policy
update_user_and_policy-IsLinked oldname newname t linked =
    let change = λ (p : Policy). record p { policy_name = take 32 newname } in
    if_either (oldname == newname)
      (λ b. IsLinked (
        stored same (
          if b
          then ok t
          else update_found (find_user oldname t.users) (set_names newname) oldname newname change
              t)))
      linked
      (update_found-IsLinked (find_user oldname t.users) (set_names newname) oldname newname change
        t (λ u. refl) (λ p. refl) linked)

pub update_if_found-IsLinked :
    (found : Option UserRow) (old new : Text) (t : Tables)
    → IsLinked t
    → IsLinked (stored same (update_if_found found old new t))
update_if_found-IsLinked none old new t linked = linked
update_if_found-IsLinked (some u) old new t linked =
    update_found-IsLinked (some u) (set_email new) old new (follow_address new) t (λ u. refl)
      (λ p. refl) linked
