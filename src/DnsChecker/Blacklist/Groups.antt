-- ===== src/DnsChecker/Blacklist/Groups.antt =====
-- The groups of MX records by address: which of them a record is in.
use mrt_post_office.Prelude.{
  ℕ, Bool, true, false, ◌||◌, ◌≡◌, refl, Option, none, some, List, [], ◌∷◌, ◌++◌, Text, ◌==◌,
  ==_iff, text_eq, nat_eq, arith, Bool-cases, inl, inr, ap, sym, ◌∙◌, any, ⊤, if_true, if_false,
  some_injective, subst, get_or,
}
use mrt_post_office.Prelude.Bools.{or_true, or_false}
use mrt_post_office.Prelude.Dict.{Dict, lookup, insert}
use mrt_post_office.DnsChecker.Mx.{Mx}
use mrt_post_office.DnsChecker.Blacklist.{is_among, add_to, group}

abbrev pub has : ℕ → List Mx → Bool
has k mxs = any (λ mx. mx.pk == k) mxs

abbrev pub has_group : ℕ → Dict Text (List Mx) → Bool
has_group k [] = false
has_group k ((address, mxs) ∷ groups) = has k mxs || has_group k groups

-- A record with the key has the address.
abbrev pub HasAddress : ℕ → Text → List Mx → Type 0
HasAddress k address [] = ⊤
HasAddress k address (mx ∷ mx_list) =
    (mx.pk ≡ k → mx.address ≡ address) × HasAddress k address mx_list

-- Only the group of the address has a record with the key.
abbrev pub IsGrouped : ℕ → Text → Dict Text (List Mx) → Type 0
IsGrouped k address [] = ⊤
IsGrouped k address ((other, mxs) ∷ groups) =
    (has k mxs ≡ true → other ≡ address) × IsGrouped k address groups

has-append : (k : ℕ) (a b : List Mx) → has k (a ++ b) ≡ (has k a || has k b)
has-append k [] b = refl
has-append k (mx ∷ a) b = ground (arith, has-append k a b)

swap : (a b c : Bool) → (a || (b || c)) ≡ (b || (a || c))
swap true true c = refl
swap true false c = refl
swap false true c = refl
swap false false c = refl

move : (a b c : Bool) → (a || (b || c)) ≡ ((b || a) || c)
move true true c = refl
move true false c = refl
move false true c = refl
move false false c = refl

absorb : (a b c : Bool) → (a ≡ true → b ≡ true) → (b || c) ≡ (b || (a || c))
absorb true b c h = ap (λ x. x || c) (h refl) ∙ sym (ap (λ x. x || true) (h refl))
absorb false b c h = refl

none_has :
    {B : Type 0} (k : ℕ) {found : Option (List Mx)}
    → found ≡ none
    → has k (get_or found []) ≡ true
    → B
none_has k e h = cc

abbrev old_group : Text → Dict Text (List Mx) → List Mx
old_group at groups = get_or (lookup at groups) []

module _ (k : ℕ) (address : Text) where
  IsGrouped-lookup :
      (groups : Dict Text (List Mx)) (at : Text) (mxs : List Mx)
      → IsGrouped k address groups
      → lookup at groups ≡ some mxs
      → has k mxs ≡ true
      → at ≡ address
  IsGrouped-lookup [] at mxs grouped found inside = cc
  IsGrouped-lookup ((other, ms) ∷ groups) at mxs (here, rest) found inside =
      elim (Bool-cases (other == at)) [
        | inl e ↦
            let same = some_injective (sym (if_true _ e) ∙ found) in
            sym ((==_iff other at).0 e) ∙ here (ap (has k) same ∙ inside)
        | inr e ↦ IsGrouped-lookup groups at mxs rest (sym (if_false _ e) ∙ found) inside
      ]

  IsGrouped-insert :
      (groups : Dict Text (List Mx)) (at : Text) (mxs : List Mx)
      → IsGrouped k address groups
      → (has k mxs ≡ true → at ≡ address)
      → IsGrouped k address (insert at mxs groups)
  IsGrouped-insert [] at mxs grouped inside = (inside, tt)
  IsGrouped-insert ((other, ms) ∷ groups) at mxs (here, rest) inside =
      elim (Bool-cases (other == at)) [
        | inl e ↦
            subst (IsGrouped k address) (sym (if_true _ e))
              ((λ h. (==_iff other at).0 e ∙ inside h), rest)
        | inr e ↦
            subst (IsGrouped k address) (sym (if_false _ e))
              (here, IsGrouped-insert groups at mxs rest inside)
      ]

  has_group-insert :
      (groups : Dict Text (List Mx)) (at : Text) (mxs : List Mx)
      → (has k (old_group at groups) ≡ true → has k mxs ≡ true)
      → has_group k (insert at mxs groups) ≡ (has k mxs || has_group k groups)
  has_group-insert [] at mxs more = refl
  has_group-insert ((other, ms) ∷ groups) at mxs more = elim (Bool-cases (other == at)) [
    | inl e ↦
        ap (has_group k) (if_true _ e)
        ∙ absorb (has k ms) (has k mxs) (has_group k groups)
            (λ h. more (ap (λ o. has k (get_or o [])) (if_true _ e) ∙ h))
    | inr e ↦
        ap (has_group k) (if_false _ e)
        ∙ ap (λ b. has k ms || b)
            (has_group-insert groups at mxs
              (λ h. more (ap (λ o. has k (get_or o [])) (if_false _ e) ∙ h)))
        ∙ swap (has k ms) (has k mxs) (has_group k groups)
  ]

  -- What the next record does to the groups
  abbrev StepsTo : Mx → Dict Text (List Mx) → Dict Text (List Mx) → Type 0
  StepsTo mx before after =
      IsGrouped k address after × (has_group k after ≡ (mx.pk == k || has_group k before))

  lookup-has_group :
      (groups : Dict Text (List Mx)) (at : Text) (mxs : List Mx)
      → lookup at groups ≡ some mxs
      → has k mxs ≡ true
      → has_group k groups ≡ true
  lookup-has_group [] at mxs found inside = cc
  lookup-has_group ((other, ms) ∷ groups) at mxs found inside = elim (Bool-cases (other == at)) [
    | inl e ↦
        let same = some_injective (sym (if_true _ e) ∙ found) in
        ap (λ b. b || has_group k groups) (ap (has k) same ∙ inside)
    | inr e ↦
        or_true (has k ms) (lookup-has_group groups at mxs (sym (if_false _ e) ∙ found) inside)
  ]

  -- The groups have the records of the group that is extended.
  absorbed :
      (mx : Mx) (mxs : List Mx) (groups : Dict Text (List Mx))
      → lookup mx.address groups ≡ some mxs
      → (has k (mxs ++ mx ∷ []) || has_group k groups) ≡ (mx.pk == k || has_group k groups)
  absorbed mx mxs groups found = elim (Bool-cases (has k mxs)) [
    | inl e ↦
        let whole = lookup-has_group groups mx.address mxs found e in
        or_true (has k (mxs ++ mx ∷ [])) whole ∙ sym (or_true (mx.pk == k) whole)
    | inr e ↦
        ap (λ b. b || has_group k groups)
          (has-append k mxs (mx ∷ [])
            ∙ ap (λ b. b || (mx.pk == k || false)) e
            ∙ or_false (mx.pk == k))
  ]

  add_to-StepsTo :
      (found : Option (List Mx)) (mx : Mx) (groups : Dict Text (List Mx))
      → lookup mx.address groups ≡ found
      → (mx.pk ≡ k → mx.address ≡ address)
      → IsGrouped k address groups
      → StepsTo mx groups (add_to found mx groups)
  add_to-StepsTo none mx groups found same grouped = (
    IsGrouped-insert groups mx.address (mx ∷ []) grouped
        (λ h. same (ground (arith, ==_iff mx.pk k))),
    has_group-insert groups mx.address (mx ∷ []) (λ h. none_has k found h)
        ∙ ap (λ b. b || has_group k groups) (or_false (mx.pk == k)),
  )
  add_to-StepsTo (some mxs) mx groups found same grouped = elim (Bool-cases (is_among mx mxs)) [
    | inl e ↦ subst (StepsTo mx groups) (sym (if_true _ e)) (
      grouped,
      elim (Bool-cases (mx.pk == k)) [
        | inl h ↦
            let inside = ap (λ j. has j mxs) (sym ((==_iff mx.pk k).0 h)) ∙ e in
            lookup-has_group groups mx.address mxs found inside
            ∙ sym (ap (λ b. b || has_group k groups) h)
        | inr h ↦ sym (ap (λ b. b || has_group k groups) h)
      ],
    )
    | inr e ↦ subst (StepsTo mx groups) (sym (if_false _ e)) (
      IsGrouped-insert groups mx.address (mxs ++ mx ∷ []) grouped (λ h.
          elim (Bool-cases (has k mxs)) [
            | inl i ↦ IsGrouped-lookup groups mx.address mxs grouped found i
            | inr i ↦
                let last =
                  sym (
                    has-append k mxs (mx ∷ [])
                    ∙ ap (λ b. b || (mx.pk == k || false)) i
                    ∙ or_false (mx.pk == k))
                  ∙ h in
                same ((==_iff mx.pk k).0 last)
          ]),
      has_group-insert groups mx.address (mxs ++ mx ∷ []) (λ h.
            has-append k mxs (mx ∷ [])
            ∙ ap (λ b. b || (mx.pk == k || false)) (ap (λ o. has k (get_or o [])) (sym found) ∙ h))
          ∙ absorbed mx mxs groups found,
    )
  ]

  pub group-StepsTo :
      (mx_list : List Mx) (groups : Dict Text (List Mx))
      → HasAddress k address mx_list
      → IsGrouped k address groups
      → IsGrouped k address (group mx_list groups)
        × (has_group k (group mx_list groups) ≡ (has k mx_list || has_group k groups))
  group-StepsTo [] groups named grouped = (grouped, refl)
  group-StepsTo (mx ∷ mx_list) groups (same, named) grouped =
      let (added, held) = add_to-StepsTo (lookup mx.address groups) mx groups refl same grouped in
      let (all_grouped, all_held) =
        group-StepsTo mx_list (add_to (lookup mx.address groups) mx groups) named added in
      (
        all_grouped,
        all_held
            ∙ ap (λ b. has k mx_list || b) held
            ∙ move (has k mx_list) (mx.pk == k) (has_group k groups),
      )
