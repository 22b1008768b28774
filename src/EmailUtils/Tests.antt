-- ===== src/EmailUtils/Tests.antt =====
-- Addresses split on concrete input.
use mrt_post_office.Prelude.{◌≡◌, refl, Text, some}
use mrt_post_office.Prelude.Chars.{codes}
use mrt_post_office.EmailUtils.Split.{split_address, split_local_part, split_mailbox_extension}

abbrev tagged : Text
tagged = codes "joe+news@a.fr"

split_tagged :
    split_mailbox_extension tagged ≡ (codes "joe", some (codes "a.fr"), some (codes "news"))
unfolding split_mailbox_extension split_address split_local_part
split_tagged = refl
