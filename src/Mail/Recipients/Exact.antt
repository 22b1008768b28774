-- ===== src/Mail/Recipients/Exact.antt =====
-- After a change of the recipients of an alias, they are what was asked for.
use mrt_post_office.Prelude.{
  ◌≡◌, refl, ap, sym, subst, ◌∙◌, ◌≢◌, ◌⊎◌, inl, inr, Bool-cases, Bool, true, false, ◌&&◌, ◌||◌,
  List, [], ◌∷◌, ◌++◌, Text, arith, if◌then◌else◌, ◌==◌, ==_iff, ==_ne, text_eq,
}
use mrt_post_office.Prelude.Result.{Result, ok, err, ◌>>=◌, >>=-eq-ok}
use mrt_post_office.Mail.Recipients.{
  Error, Target, Recipient, Tables, has_recipient, append_recipient, new_target, add_recipient,
  add_recipients, is_in, keep_only, set_recipients,
}

has_recipient-append :
    (a : Text) (recipients : List Recipient) (r : Recipient)
    → has_recipient a (recipients ++ r ∷ []) ≡ (has_recipient a recipients || r.address == a)
has_recipient-append a [] r = ground arith
has_recipient-append a (s ∷ recipients) r = ground (arith, has_recipient-append a recipients r)

-- A step adds a row, or the address has one.
added :
    (b : Bool) (m : Result Error Target) (address : Text) (recipients recipients' : List Recipient)
    → (if b then ok recipients else m >>= append_recipient address recipients) ≡ ok recipients'
    → ((b ≡ true) × (recipients ≡ recipients'))
      ⊎ ((target : Target) × (recipients ++ record { address = address; target = target } ∷ []
            ≡ recipients'))
added true m address recipients recipients' h = inl (refl, cc h)
added false (ok target) address recipients recipients' h = inr (target, ground arith)
added false (err e) address recipients recipients' h = cc

has_already :
    (a address : Text) (recipients : List Recipient)
    → has_recipient address recipients ≡ true
    → has_recipient a recipients ≡ (has_recipient a recipients || address == a)
has_already a address recipients h = elim (Bool-cases (address == a)) [
  | inl e ↦
      let has : has_recipient a recipients ≡ true =
        subst (λ b. has_recipient b recipients ≡ true) ((==_iff address a).0 e) h in
      rw has
  | inr e ↦ ground arith
]

has_recipient-add_recipient :
    (t : Tables) (self a address : Text) (recipients recipients' : List Recipient)
    → a ≢ []
    → add_recipient t self address recipients ≡ ok recipients'
    → has_recipient a recipients' ≡ (has_recipient a recipients || address == a)
unfolding add_recipient
has_recipient-add_recipient t self a [] recipients recipients' ne h =
    let differ = ==_ne [] a (λ e. ne (sym e)) in rw (differ) (ground arith)
has_recipient-add_recipient t self a (c ∷ address) recipients recipients' ne h =
    elim (added (has_recipient (c ∷ address) recipients) (new_target t self (c ∷ address))
      (c ∷ address) recipients recipients' h) [
        | inl (seen, same) ↦
            subst (λ rs. has_recipient a rs ≡ (has_recipient a recipients || (c ∷ address) == a))
              same (has_already a (c ∷ address) recipients seen)
        | inr (target, same) ↦
            subst (λ rs. has_recipient a rs ≡ (has_recipient a recipients || (c ∷ address) == a))
              same
              (has_recipient-append a recipients
                (record { address = c ∷ address; target = target }))
      ]

or_assoc : (a b c : Bool) → ((a || b) || c) ≡ (a || (b || c))
or_assoc true b c = refl
or_assoc false b c = refl

has_recipient-add_recipients :
    (t : Tables) (self a : Text) (addresses : List Text) (recipients recipients' : List Recipient)
    → a ≢ []
    → add_recipients t self addresses recipients ≡ ok recipients'
    → has_recipient a recipients' ≡ (has_recipient a recipients || is_in addresses a)
unfolding add_recipients
has_recipient-add_recipients t self a [] recipients recipients' ne h = ground arith
has_recipient-add_recipients t self a (address ∷ addresses) recipients recipients' ne h =
    let (middle, e, f) = >>=-eq-ok (add_recipient t self address recipients) _ h in
    has_recipient-add_recipients t self a addresses middle recipients' ne f
    ∙ ap (λ b. b || is_in addresses a)
        (has_recipient-add_recipient t self a address recipients middle ne e)
    ∙ or_assoc (has_recipient a recipients) (address == a) (is_in addresses a)

has_recipient-keep_only :
    (a : Text) (addresses : List Text) (recipients : List Recipient)
    → has_recipient a (keep_only addresses recipients)
      ≡ (has_recipient a recipients && is_in addresses a)
has_recipient-keep_only a addresses [] = refl
has_recipient-keep_only a addresses (r ∷ recipients) = elim (Bool-cases (r.address == a)) [
  | inl e ↦
      let same : is_in addresses r.address ≡ is_in addresses a =
        ap (is_in addresses) ((==_iff r.address a).0 e) in
      ground (arith, has_recipient-keep_only a addresses recipients)
  | inr e ↦ ground (arith, has_recipient-keep_only a addresses recipients)
]

absorb : (a b : Bool) → ((a || b) && b) ≡ b
absorb true true = refl
absorb true false = refl
absorb false true = refl
absorb false false = refl

-- When set_recipients raises nothing, the recipients of the alias are exactly the addresses of
-- the list, the empty one aside.
pub has_recipient-set_recipients :
    (t : Tables) (self a : Text) (addresses : List Text) (recipients recipients' : List Recipient)
    → a ≢ []
    → set_recipients t self addresses recipients ≡ ok recipients'
    → has_recipient a recipients' ≡ is_in addresses a
unfolding set_recipients
has_recipient-set_recipients t self a addresses recipients recipients' ne h =
    let (middle, e, f) = >>=-eq-ok (add_recipients t self addresses recipients) _ h in
    let kept : keep_only addresses middle ≡ recipients' = cc f in
    subst (λ rs. has_recipient a rs ≡ is_in addresses a) kept
      (has_recipient-keep_only a addresses middle
        ∙ ap (λ b. b && is_in addresses a)
            (has_recipient-add_recipients t self a addresses recipients middle ne e)
        ∙ absorb (has_recipient a recipients) (is_in addresses a))
