-- ===== src/Extensions/Instances.antt =====
-- Each registered extension has one instance.
use mrt_post_office.Prelude.{◌≡◌, refl, Option, none, some, Text, text_eq}
use mrt_post_office.Prelude.Dict.{lookup, lookup-insert_self}
use mrt_post_office.Extensions.Pool.{Instance, Entry, Pool, instance_of, get_entry, get_extension}

instance_again :
    (name : Text) (entry : Entry) (made : Option Instance) (p : Pool)
    → lookup name p.extensions ≡ some entry
    → entry.made ≡ made
    → get_extension name (instance_of name entry made p).1
      ≡ (some (instance_of name entry made p).0, (instance_of name entry made p).1)
unfolding get_extension
instance_again name entry (some i) p e f = rw (e, f)
instance_again name entry none p e f = rw lookup-insert_self

get_entry_again :
    (name : Text) (found : Option Entry) (p : Pool)
    → lookup name p.extensions ≡ found
    → get_extension name (get_entry name found p).1
      ≡ ((get_entry name found p).0, (get_entry name found p).1)
unfolding get_extension
get_entry_again name none p e = rw e
get_entry_again name (some entry) p e = instance_again name entry entry.made p e refl

-- Asking twice for an extension gives the same instance, and the second time changes nothing.
pub get_extension_again :
    (name : Text) (p : Pool)
    → get_extension name (get_extension name p).1
      ≡ ((get_extension name p).0, (get_extension name p).1)
unfolding get_extension
get_extension_again name p = get_entry_again name (lookup name p.extensions) p refl
