-- ===== src/Mail/Recipients.antt =====
-- The recipients of an alias: modoboa/admin/models/alias.py. The addresses of a set come in the order
-- in which Python walks it.
pub mod Exact
use mrt_post_office.Prelude.{
  ℕ, ◌≡◌, refl, ap, sym, subst, ◌∙◌, ◌≢◌, ◌⊎◌, inl, inr, Bool-cases, Bool, true, false, not, ◌&&◌,
  ◌||◌, Option, none, some, List, [], ◌∷◌, ◌++◌, Text, arith, if◌then◌else◌, ◌==◌, ==_iff, ==_ne,
  text_eq, any, filter, nat_eqb, length, map,
}
use mrt_post_office.Prelude.Result.{Result, ok, err, ◌>>=◌, >>=-eq-ok}
use mrt_post_office.EmailUtils.Split.{split_mailbox_extension}

pub data Error : Type 0 where
  bad_request not_found conflict integrity_error : Error

-- `r_mailbox`, `r_alias` or neither
pub data Target : Type 0 where
  external : Target
  r_mailbox : ℕ → Target
  r_alias : Text → Target

-- A row of `AliasRecipient` of the alias
pub record Recipient : Type 0 where
  pub address : Text
  pub target : Target

-- What the queries and the receivers of the signal answer
pub record Tables : Type 0 where
  pub is_domain : Text → Bool
  pub target_allowed : Text → Bool
  pub uses_external : Text → Bool
  pub find_mailbox : Text → Text → Option ℕ
  pub is_alias : Text → Bool

-- `is_alias_target_allowed`, from the three parameters; the lists are split and stripped
unfoldable pub is_alias_target_allowed : Bool → List Text → List Text → Text → Bool
is_alias_target_allowed any_domain blocked allowed domain =
    if any_domain then not (any (λ d. d == domain) blocked) else any (λ d. d == domain) allowed

abbrev pub has_recipient : Text → List Recipient → Bool
has_recipient address [] = false
has_recipient address (r ∷ recipients) = r.address == address || has_recipient address recipients

-- the alias of that name, which is not the alias itself
abbrev pub alias_target : Tables → Text → Text → Result Error Target
alias_target t self name =
    if t.is_alias name
    then if name == self then err conflict else ok (r_alias name)
    else err not_found

abbrev pub local_target : Tables → Text → Text → Text → Option ℕ → Result Error Target
local_target t self local_part domname (some mailbox) = ok (r_mailbox mailbox)
local_target t self local_part domname none = alias_target t self (local_part ++ b'@' ∷ domname)

abbrev pub target_in : Tables → Text → Text → Text → Text → Result Error Target
target_in t self address local_part domname =
    if not (t.is_domain domname) && not (t.target_allowed domname)
    then err bad_request
    else if t.is_domain domname && not (t.uses_external address)
    then local_target t self local_part domname (t.find_mailbox local_part domname)
    else ok external

abbrev pub target_of : Tables → Text → Text → Text × Option Text × Option Text → Result Error Target
target_of t self address (local_part, none, extension) = err bad_request
target_of t self address (local_part, some domname, extension) =
    target_in t self address local_part domname

unfoldable pub new_target : Tables → Text → Text → Result Error Target
new_target t self address = target_of t self address (split_mailbox_extension address)

-- `unique_together` of the table: a mailbox or an alias is a recipient once
abbrev pub same_target : Target → Target → Bool
same_target (r_mailbox n) (r_mailbox m) = nat_eqb n m
same_target (r_alias a) (r_alias b) = a == b
same_target _ _ = false

abbrev pub append_recipient : Text → List Recipient → Target → Result Error (List Recipient)
append_recipient address recipients target =
    if any (λ (r : Recipient). same_target r.target target) recipients
    then err integrity_error
    else ok (recipients ++ record { address = address; target = target } ∷ [])

-- the body of the loop of `add_recipients`, for the alias with the address `self`
unfoldable pub add_recipient : Tables → Text → Text → List Recipient → Result Error (List Recipient)
unfolding new_target
add_recipient t self [] recipients = ok recipients
add_recipient t self (c ∷ address) recipients =
    if has_recipient (c ∷ address) recipients
    then ok recipients
    else new_target t self (c ∷ address) >>= append_recipient (c ∷ address) recipients

unfoldable pub add_recipients :
    Tables → Text → List Text → List Recipient → Result Error (List Recipient)
add_recipients t self [] recipients = ok recipients
add_recipients t self (address ∷ addresses) recipients = do
  recipients' ← add_recipient t self address recipients
  add_recipients t self addresses recipients'

abbrev pub is_in : List Text → Text → Bool
is_in addresses address = any (λ a. a == address) addresses

-- `exclude(address__in=address_list).delete()`
abbrev pub keep_only : List Text → List Recipient → List Recipient
keep_only addresses recipients = filter (λ r. is_in addresses r.address) recipients

unfoldable pub set_recipients :
    Tables → Text → List Text → List Recipient → Result Error (List Recipient)
unfolding add_recipients
set_recipients t self addresses recipients = do
  recipients' ← add_recipients t self addresses recipients
  ok (keep_only addresses recipients')

-- `list.remove`: the first occurrence
abbrev pub remove_first : Text → List Text → List Text
remove_first a [] = []
remove_first a (b ∷ addresses) = if b == a then addresses else b ∷ remove_first a addresses

-- The recipients that are left; `none` where the alias was deleted
unfoldable pub remove_recipient_or_delete :
    Tables → Text → Text → List Recipient → Result Error (Option (List Recipient))
unfolding set_recipients
remove_recipient_or_delete t self address recipients =
    let addresses = map (λ (r : Recipient). r.address) recipients in
    if not (is_in addresses address)
    then ok (some recipients)
    else if nat_eqb (length addresses) 1
    then ok none
    else set_recipients t self (remove_first address addresses) recipients >>= λ left.
        ok (some left)
