-- ===== src/DnsTools/Spf.antt =====
-- check_spf_syntax of modoboa/dnstools/lib.py and the checks of the mechanisms.
pub mod Sound
pub mod Masks
use mrt_post_office.Prelude.{
  ℕ, ◌+◌, Bool, true, false, not, ◌&&◌, ◌||◌, Option, none, some, List, [], ◌∷◌, ◌++◌, Text, ltb,
  if◌then◌else◌, ◌==◌, nat_eq, text_eq, any, ⊤,
}
use mrt_post_office.Prelude.Chars.{
  codes, split_char, is_digit, decimal, remove, starts_with, has_char,
}
use mrt_post_office.Prelude.Result.{Result, ok, err, ◌>>=◌}
use mrt_post_office.DnsTools.Records.{Error, dns_syntax_error, value_error}

-- SPF_MECHANISMS, in their order
pub data Mechanism : Type 0 where
  ip4 ip6 a mx ptr exists include : Mechanism

abbrev pub name_of : Mechanism → Text
name_of ip4 = codes "ip4"
name_of ip6 = codes "ip6"
name_of a = codes "a"
name_of mx = codes "mx"
name_of ptr = codes "ptr"
name_of exists = codes "exists"
name_of include = codes "include"

abbrev pub spf_mechanisms : List Mechanism
spf_mechanisms = ip4 ∷ ip6 ∷ a ∷ mx ∷ ptr ∷ exists ∷ include ∷ []

-- `if failed: raise DNSSyntaxError(...)`
abbrev pub refuse_if : Bool → Result Error ⊤
refuse_if true = err dns_syntax_error
refuse_if false = ok tt

-- `first, second = parts`
abbrev pub unpack : List Text → Result Error (Text × Text)
unpack (x ∷ y ∷ []) = ok (x, y)
unpack [] = err value_error
unpack (x ∷ []) = err value_error
unpack (x ∷ y ∷ z ∷ more) = err value_error

-- `mask.isdigit()`
abbrev pub are_digits : Text → Bool
are_digits [] = true
are_digits (c ∷ s) = is_digit c && are_digits s

-- A mask that is None or empty is not looked at.
abbrev pub check_mask : Option Text → Result Error ⊤
check_mask none = ok tt
check_mask (some []) = ok tt
check_mask (some (c ∷ mask)) =
    refuse_if (not (are_digits (c ∷ mask)) || ltb 32 (decimal 0 (c ∷ mask)))

-- the mask after a domain
abbrev pub mask_of : Text → Result Error (Option Text)
mask_of domain =
    if has_char b'/' domain
    then (do parts ← unpack (split_char b'/' domain); ok (some parts.1))
    else ok none

unfoldable pub check_domain_and_mask : Text → Result Error ⊤
check_domain_and_mask value =
    if has_char b':' value
    then (do parts ← unpack (split_char b':' value); mask ← mask_of parts.1; check_mask mask)
    else if has_char b'/' value
    then (do parts ← unpack (split_char b'/' value); check_mask (some parts.1))
    else err dns_syntax_error

-- `parts[1]` where there are two parts
abbrev pub second_of_two : List Text → Result Error Text
second_of_two (x ∷ y ∷ []) = ok y
second_of_two [] = err dns_syntax_error
second_of_two (x ∷ []) = err dns_syntax_error
second_of_two (x ∷ y ∷ z ∷ more) = err dns_syntax_error

abbrev pub check_simple : Text → Text → Result Error ⊤
check_simple value mechanism =
    if value == mechanism then ok tt else (do second ← second_of_two (split_char b':' value); ok tt)

abbrev pub find_mechanism : List Mechanism → Text → Option Mechanism
find_mechanism [] part = none
find_mechanism (m ∷ mechanisms) part =
    if starts_with (name_of m) part then some m else find_mechanism mechanisms part

-- The modifiers and the mechanisms so far
abbrev pub Seen : Type 0
Seen = List Text × List Mechanism

abbrev pub is_modifier : Text → Bool
is_modifier name = name == codes "redirect" || name == codes "exp"

abbrev pub add_modifier : Text → Seen → Result Error Seen
add_modifier name seen =
    if not (is_modifier name)
    then err dns_syntax_error
    else if any (λ other. other == name) seen.0
    then err dns_syntax_error
    else ok (seen.0 ++ name ∷ [], seen.1)

abbrev pub first_of_two : List Text → Result Error Text
first_of_two (x ∷ y ∷ []) = ok x
first_of_two [] = err dns_syntax_error
first_of_two (x ∷ []) = err dns_syntax_error
first_of_two (x ∷ y ∷ z ∷ more) = err dns_syntax_error

-- `part[0] in ["+", "-", "~", "?"]`
abbrev pub drop_qualifier : ℕ → Text → Text
drop_qualifier c part =
    if c == b'+' || (c == b'-' || (c == b'~' || c == b'?')) then part else c ∷ part

abbrev pub tail : List Text → List Text
tail [] = []
tail (part ∷ parts) = parts

abbrev pub refuse_empty : Seen → Result Error ⊤
refuse_empty ([], []) = err dns_syntax_error
refuse_empty ([], m ∷ mechanisms) = ok tt
refuse_empty (name ∷ modifiers, mechanisms) = ok tt

-- `is_network` says whether `ipaddress.ip_network(value, False)` raises nothing.
module _ (is_network : Text → Bool) where
  unfoldable pub check_spf_ip4 : Text → Result Error ⊤
  check_spf_ip4 value = do
    network ← second_of_two (split_char b':' value)
    refuse_if (not (is_network network))

  unfoldable pub check_spf_ip6 : Text → Result Error ⊤
  check_spf_ip6 value =
      if not (starts_with (codes "ip6:") value)
      then err dns_syntax_error
      else refuse_if (not (is_network (remove (codes "ip6:") 0 value)))

  -- `globals()[f"check_spf_{mechanism}"](part)`
  abbrev pub check_mechanism : Mechanism → Text → Result Error ⊤
  check_mechanism ip4 value = check_spf_ip4 value
  check_mechanism ip6 value = check_spf_ip6 value
  check_mechanism a value = if value == codes "a" then ok tt else check_domain_and_mask value
  check_mechanism mx value = if value == codes "mx" then ok tt else check_domain_and_mask value
  check_mechanism ptr value = check_simple value (codes "ptr")
  check_mechanism exists value = check_simple value (codes "exists")
  check_mechanism include value = check_simple value (codes "include")

  -- by the mechanism that the part starts with
  abbrev pub check_term : Option Mechanism → Text → Seen → Result Error Seen
  check_term none part seen = do name ← first_of_two (split_char b'=' part); add_modifier name seen
  check_term (some m) part seen = do checked ← check_mechanism m part; ok (seen.0, seen.1 ++ m ∷ [])

  abbrev pub check_part : Text → Seen → Result Error Seen
  check_part [] seen = ok seen
  check_part (c ∷ s) seen =
      let part = drop_qualifier c s in
      if part == codes "all"
      then ok seen
      else check_term (find_mechanism spf_mechanisms part) part seen

  abbrev pub check_parts : List Text → Seen → Result Error Seen
  check_parts [] seen = ok seen
  check_parts (part ∷ parts) seen = do after ← check_part part seen; check_parts parts after

  unfoldable pub check_spf_syntax : Text → Result Error ⊤
  unfolding check_spf_ip4 check_spf_ip6 check_domain_and_mask
  check_spf_syntax text =
      if not (starts_with (codes "v=spf1") text)
      then err dns_syntax_error
      else (do seen ← check_parts (tail (split_char b' ' text)) ([], []); refuse_empty seen)
