-- ===== src/EmailUtils/Join.antt =====
-- What splitting an address means: the parts put together again are the address.
use mrt_post_office.Prelude.{
  ◌||◌, ℕ, ◌≡◌, refl, Bool, true, false, Option, none, some, [], ◌∷◌, ◌++◌, Text, arith,
  if◌then◌else◌, Bool-cases, Option-cases, inl, inr, nat_eq, text_eq, ==_iff, ==_refl,
}
use mrt_post_office.Prelude.Chars.{codes, has_char, starts_with}
use mrt_post_office.EmailUtils.Split.{
  rsplit, drop_prefix, split_once, split_on, split_inside, first_is, last_is, split_address,
  split_local_part, split_mailbox_extension, is_special, is_list_address,
}

rsplit-none : (c : ℕ) (s : Text) → rsplit c s ≡ none → has_char c s ≡ false
rsplit-none c [] h = refl
rsplit-none c (x ∷ s) h = ground (arith, rsplit-none c s)

rsplit-some :
    (c : ℕ) (s before after : Text)
    → rsplit c s ≡ some (before, after)
    → (s ≡ before ++ c ∷ after) × (has_char c after ≡ false)
rsplit-some c [] before after h = cc
rsplit-some c (x ∷ s) before after h = elim (Option-cases (rsplit c s)) [
  | inl e ↦ ground (arith, ==_iff x c, rsplit-none c s e)
  | inr ((b, a), e) ↦ ground (arith, rsplit-some c s b a e)
]

rsplit-absent : (c : ℕ) (s : Text) → has_char c s ≡ false → rsplit c s ≡ none
rsplit-absent c [] h = refl
rsplit-absent c (x ∷ s) h = ground (arith, rsplit-absent c s)

rsplit-append :
    (c : ℕ) (before after : Text)
    → has_char c after ≡ false
    → rsplit c (before ++ c ∷ after) ≡ some (before, after)
rsplit-append c [] after h = rw (rsplit-absent c after h) (ground (arith, ==_refl c))
rsplit-append c (x ∷ before) after h = rw (rsplit-append c before after h)

-- An address and its parts: there is a domain exactly where the address has an "@", the domain is
-- what follows the last one, and the parts joined are the address.
abbrev pub IsSplit : Text → Text × Option Text → Type 0
IsSplit address (local_part, none) = (address ≡ local_part) × (has_char b'@' address ≡ false)
IsSplit address (local_part, some domain) =
    (address ≡ local_part ++ b'@' ∷ domain) × (has_char b'@' domain ≡ false)

parts-IsSplit :
    (address : Text) (found : Option (Text × Text))
    → rsplit b'@' address ≡ found
    → IsSplit address (elim found [
      | none ↦ (address, none)
      | some (local_part, domain) ↦ (local_part, some domain)
    ])
parts-IsSplit address none e = (refl, rsplit-none b'@' address e)
parts-IsSplit address (some (local_part, domain)) e = rsplit-some b'@' address local_part domain e

-- split_address takes every address apart at its last "@".
pub split_address-IsSplit : (address : Text) → IsSplit address (split_address address)
unfolding split_address
split_address-IsSplit address = parts-IsSplit address (rsplit b'@' address) refl

-- A local part and a domain without "@" survive being joined and split, also where the local part
-- itself has an "@".
pub split_address-join :
    (local_part domain : Text)
    → has_char b'@' domain ≡ false
    → split_address (local_part ++ b'@' ∷ domain) ≡ (local_part, some domain)
unfolding split_address
split_address-join local_part domain h = rw (rsplit-append b'@' local_part domain h, split_address)

starts_with-eq : (d s : Text) → starts_with d s ≡ true → d ++ drop_prefix d s ≡ s
starts_with-eq [] s h = refl
starts_with-eq (d ∷ ds) [] h = cc
starts_with-eq (d ∷ ds) (x ∷ s) h = ground (arith, ==_iff x d, starts_with-eq ds s)

split_once-eq :
    (d s before after : Text) → split_once d s ≡ some (before, after) → before ++ (d ++ after) ≡ s
split_once-eq d [] before after h = cc
split_once-eq d (x ∷ s) before after h = elim (Bool-cases (starts_with d (x ∷ s))) [
  | inl yes' ↦ ground (arith, starts_with-eq d (x ∷ s) yes')
  | inr no' ↦ elim (Option-cases (split_once d s)) [
    | inl e ↦ ground arith
    | inr ((b, a), e) ↦ ground (arith, split_once-eq d s b a e)
  ]
]

-- A local part and what it was split into at a delimiter.
abbrev pub IsExtension : Text → Text → Text × Option Text → Type 0
IsExtension delimiter local_part (local_part', none) = local_part' ≡ local_part
IsExtension delimiter local_part (local_part', some extension) =
    local_part' ++ (delimiter ++ extension) ≡ local_part

split_on-IsExtension :
    (d s : Text) (found : Option (Text × Text))
    → split_once d s ≡ found
    → IsExtension d s (split_on s found)
split_on-IsExtension d s none e = refl
split_on-IsExtension d s (some (b, a)) e = split_once-eq d s b a e

unsplit-IsExtension :
    (d s : Text) (b : Bool) (parts : Text × Option Text)
    → IsExtension d s parts
    → IsExtension d s (if b then (s, none) else parts)
unsplit-IsExtension d s true parts h = refl
unsplit-IsExtension d s false parts h = h

-- Whatever the non-empty delimiter, the new local part, the delimiter and the extension joined
-- are the local part that was split, and without an extension the local part is unchanged.
pub split_local_part-IsExtension :
    (local_part : Text) (d : ℕ) (delimiter : Text)
    → IsExtension (d ∷ delimiter) local_part (split_local_part local_part (some (d ∷ delimiter)))
unfolding split_local_part
split_local_part-IsExtension local_part d delimiter =
    unsplit-IsExtension (d ∷ delimiter) local_part
      (is_special local_part || is_list_address (d ∷ delimiter) local_part)
      (split_inside (d ∷ delimiter) local_part)
      (unsplit-IsExtension (d ∷ delimiter) local_part
        (first_is (d ∷ delimiter) local_part || last_is (d ∷ delimiter) local_part)
        (split_on local_part (split_once (d ∷ delimiter) local_part))
        (split_on-IsExtension (d ∷ delimiter) local_part _ refl))

-- The parts of an address with their separators, and how they come out of
-- `split_mailbox(address, return_extension=True)`.
abbrev pub joined : Text × Option Text × Option Text → Text
joined (local_part, none, none) = local_part
joined (local_part, none, some e) = local_part ++ (b'+' ∷ e)
joined (local_part, some d, none) = local_part ++ b'@' ∷ d
joined (local_part, some d, some e) = (local_part ++ (b'+' ∷ e)) ++ b'@' ∷ d

joined-parts :
    (address : Text) (parts ext : Text × Option Text)
    → IsSplit address parts
    → IsExtension (codes "+") parts.0 ext
    → joined (ext.0, parts.1, ext.1) ≡ address
joined-parts address (l, none) (l', none) h k = cc (h.0)
joined-parts address (l, none) (l', some e) h k = cc (h.0)
joined-parts address (l, some d) (l', none) h k = cc (h.0)
joined-parts address (l, some d) (l', some e) h k = cc (h.0)

-- Splitting an address into local part, domain and extension loses nothing.
split_mailbox_extension-joined :
    (address : Text) → joined (split_mailbox_extension address) ≡ address
unfolding split_mailbox_extension
split_mailbox_extension-joined address =
    joined-parts address (split_address address)
      (split_local_part (split_address address).0 (some (codes "+")))
      (split_address-IsSplit address)
      (split_local_part-IsExtension (split_address address).0 b'+' [])
