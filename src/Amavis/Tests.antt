-- ===== src/Amavis/Tests.antt =====
-- The records of a domain and of a mailbox on small tables.
use mrt_post_office.Prelude.{true, false, ◌≡◌, refl, none, [], ◌∷◌, Text, text_eq, arith}
use mrt_post_office.Prelude.Chars.{codes}
use mrt_post_office.Prelude.Result.{ok, err}
use mrt_post_office.Amavis.Tables.{Tables, does_not_exist, find_user, delete_policy}
use mrt_post_office.Amavis.Records.{
  create_user_and_policy, create_user_and_use_policy, create_user_and_use_policy_named,
  delete_user_and_policy,
}
use mrt_post_office.Amavis.Learning.{
  Conf, setup_manual_learning_for_domain, setup_manual_learning_for_mbox,
}
use mrt_post_office.Amavis.Handlers.{
  manage_domain_policy, on_domain_deleted, on_domain_alias_created,
}
use mrt_post_office.Amavis.Linked.Rows.{IsLinked}
use mrt_post_office.Amavis.Linked.{domain_deleted, handle, handle-IsLinked}
use mrt_post_office.Amavis.Leftover.{
  setup_manual_learning_for_domain_long, on_mailbox_deleted_leaves, alone, mailbox_gone,
}

abbrev empty : Tables
empty = record { policies = []; users = []; next_pk = 1 }

-- the domain a.fr and its alias b.fr
abbrev two_domains : Tables
two_domains = record {
  policies = record { pk = 1; policy_name = codes "@a.fr"; sa_username = none } ∷ [];
  users =
      record { email = codes "@a.fr"; fullname = codes "@a.fr"; priority = 7; policy = 1 }
      ∷ record { email = codes "@b.fr"; fullname = codes "@b.fr"; priority = 7; policy = 1 }
      ∷ [];
  next_pk = 2;
}

abbrev learning : Conf
learning = record {
  manual_learning = true;
  user_level_learning = true;
  domain_level_learning = true;
}

aliased :
    on_domain_alias_created true (codes "b.fr") (codes "a.fr") (record two_domains {
      users =
          record { email = codes "@a.fr"; fullname = codes "@a.fr"; priority = 7; policy = 1 } ∷ [];
    })
    ≡ ok two_domains
unfolding on_domain_alias_created create_user_and_use_policy_named create_user_and_use_policy
aliased = refl

-- the user of the alias goes with the policy of the domain
domain_gone :
    on_domain_deleted (codes "a.fr") two_domains ≡ record { policies = []; users = []; next_pk = 2 }
unfolding on_domain_deleted delete_user_and_policy delete_policy
domain_gone = refl

handle-IsLinked_example : IsLinked (handle learning (domain_deleted (codes "a.fr")) two_domains)
handle-IsLinked_example =
    handle-IsLinked learning (domain_deleted (codes "a.fr")) two_domains (refl, (refl, tt))

abbrev long_name : Text
long_name = codes "a-domain-of-thirty-six-characters.fr"

abbrev long_domain : Tables
long_domain = record {
  policies =
      record { pk = 1; policy_name = codes "@a-domain-of-thirty-six-characte"; sa_username = none }
      ∷ [];
  users =
      record { email = b'@' ∷ long_name; fullname = b'@' ∷ long_name; priority = 7; policy = 1 }
      ∷ [];
  next_pk = 2;
}

long_created : manage_domain_policy true [] long_name empty ≡ ok long_domain
unfolding manage_domain_policy create_user_and_policy
long_created = refl

long_refused :
    setup_manual_learning_for_domain long_name long_domain ≡ err (does_not_exist, long_domain)
long_refused =
    setup_manual_learning_for_domain_long long_name long_domain (omega arith) (omega arith, tt) refl

on_mailbox_deleted_leaves_example :
    (after : Tables) × (setup_manual_learning_for_mbox (alone (codes "joe@a.fr")) two_domains
      ≡ ok (true, after))
    × (find_user (codes "joe@a.fr") (mailbox_gone learning (codes "joe@a.fr") after).users ≡ none)
    × (setup_manual_learning_for_mbox
          (alone (codes "joe@a.fr"))
          (mailbox_gone learning (codes "joe@a.fr") after)
        ≡ ok (false, mailbox_gone learning (codes "joe@a.fr") after))
on_mailbox_deleted_leaves_example =
    on_mailbox_deleted_leaves learning (codes "joe@a.fr") two_domains refl refl refl refl
