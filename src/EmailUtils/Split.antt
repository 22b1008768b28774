-- ===== src/EmailUtils/Split.antt =====
-- split_address, split_local_part and split_mailbox of modoboa/lib/email_utils.py, over the
-- methods of Python's `str` that they use.
use mrt_post_office.Prelude.{
  ℕ, Bool, false, ◌&&◌, ◌||◌, Option, none, some, [], ◌∷◌, Text, if◌then◌else◌, ◌==◌, nat_eq,
  text_eq,
}
use mrt_post_office.Prelude.Chars.{codes, lower, starts_with}

-- `s.rsplit(c, 1)` where `c` occurs: the parts around the last occurrence
abbrev pub rsplit : ℕ → Text → Option (Text × Text)
rsplit c [] = none
rsplit c (x ∷ s) = elim (rsplit c s) [
  | some (before, after) ↦ some (x ∷ before, after)
  | none ↦ if x == c then some ([], s) else none
]

-- what follows a prefix of the same length
abbrev pub drop_prefix : Text → Text → Text
drop_prefix [] s = s
drop_prefix (d ∷ ds) [] = []
drop_prefix (d ∷ ds) (x ∷ s) = drop_prefix ds s

abbrev pub ends_with : Text → Text → Bool
ends_with d [] = d == []
ends_with d (x ∷ s) = d == (x ∷ s) || ends_with d s

-- `s.split(d, 1)` where `d` occurs: the parts around the first occurrence; `none` where it does not
abbrev pub split_once : Text → Text → Option (Text × Text)
split_once d [] = none
split_once d (x ∷ s) =
    if starts_with d (x ∷ s)
    then some ([], drop_prefix d (x ∷ s))
    else elim (split_once d s) [ none ↦ none | some (before, after) ↦ some (x ∷ before, after) ]

-- `s[0] == d` and `s[-1] == d`, for a one-character string `s[i]`
abbrev pub first_is : Text → Text → Bool
first_is d [] = false
first_is d (x ∷ s) = (x ∷ []) == d

abbrev pub last_is : Text → Text → Bool
last_is d [] = false
last_is d (x ∷ []) = (x ∷ []) == d
last_is d (x ∷ y ∷ s) = last_is d (y ∷ s)

unfoldable pub split_address : Text → Text × Option Text
split_address address = elim (rsplit b'@' address) [
  | none ↦ (address, none)
  | some (local_part, domain) ↦ (local_part, some domain)
]

abbrev pub is_special : Text → Bool
is_special local_part =
    lower local_part == codes "mailer-daemon" || lower local_part == codes "double-bounce"

abbrev pub is_list_address : Text → Text → Bool
is_list_address delimiter local_part =
    delimiter == codes "-"
    && (starts_with (codes "owner-") local_part || ends_with (codes "-request") local_part)

abbrev pub split_on : Text → Option (Text × Text) → Text × Option Text
split_on local_part none = (local_part, none)
split_on local_part (some (before, after)) = (before, some after)

-- the last branch: a delimiter that is neither first nor last is split on
abbrev pub split_inside : Text → Text → Text × Option Text
split_inside delimiter local_part =
    if first_is delimiter local_part || last_is delimiter local_part
    then (local_part, none)
    else split_on local_part (split_once delimiter local_part)

-- `delimiter` is false as `None` and as the empty string
unfoldable pub split_local_part : Text → Option Text → Text × Option Text
unfolding lower
split_local_part local_part none = (local_part, none)
split_local_part local_part (some []) = (local_part, none)
split_local_part local_part (some (d ∷ delimiter)) =
    if is_special local_part || is_list_address (d ∷ delimiter) local_part
    then (local_part, none)
    else split_inside (d ∷ delimiter) local_part

-- `split_mailbox(mailbox)`
unfoldable pub split_mailbox : Text → Text × Option Text
split_mailbox mailbox = split_address mailbox

-- `split_mailbox(mailbox, return_extension=True)`
unfoldable pub split_mailbox_extension : Text → Text × Option Text × Option Text
split_mailbox_extension mailbox =
    let (local_part, domain) = split_address mailbox in
    let (local_part', extension) = split_local_part local_part (some (codes "+")) in
    (local_part', domain, extension)
