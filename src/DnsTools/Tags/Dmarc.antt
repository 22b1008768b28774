-- ===== src/DnsTools/Tags/Dmarc.antt =====
-- What an accepted DMARC record says.
use mrt_post_office.Prelude.{
  Bool, true, false, not, ◌||◌, ◌≡◌, refl, Option, none, some, List, [], ◌∷◌, Text, ◌==◌, ==_iff,
  nat_eq, text_eq, ⊤, Bool-cases, inl, inr, ap, sym, ◌∙◌, if_true, if_false, subst, arith, is_some,
  some_injective, none-some, ◌⊎◌,
}
use mrt_post_office.Prelude.Bools.{not-false, false-true}
use mrt_post_office.Prelude.Chars.{codes, split_char, strip, starts_with}
use mrt_post_office.Prelude.Dict.{Dict, lookup, insert, contains, lookup-insert}
use mrt_post_office.Prelude.Int.{ℤ, pos, ◌≤ℤ◌}
use mrt_post_office.Prelude.Result.{
  ok, ◌>>=◌, or_raise, or_raise-ok, >>=-eq-ok, err-ok, ok_injective,
}
use mrt_post_office.DnsTools.Records.{dns_syntax_error}
use mrt_post_office.DnsTools.Spf.{tail, refuse_if}
use mrt_post_office.DnsTools.Tags.{
  TagDef, dmarc_tags, policies, is_one_of, check_dmarc_tag, add_tag, add_pair, dmarc_tag,
  collect_tags, check_dmarc_syntax, below, above,
}

pub refuse_if-ok : (b : Bool) {checked : ⊤} → refuse_if b ≡ ok checked → b ≡ false
refuse_if-ok true h = cc
refuse_if-ok false h = refl

-- one of a list
abbrev pub In : Text → List Text → Type 0
In value [] = ⊥
In value (v ∷ values) = (value ≡ v) ⊎ In value values

module _ (int : Text → Option ℤ) where
  -- Every entry passed the check of its tag.
  abbrev pub IsChecked : Dict Text Text → Type 0
  IsChecked tags =
      (name value : Text)
      → lookup name tags ≡ some value
      → (tdef : TagDef) × (lookup name dmarc_tags ≡ some tdef)
        × (check_dmarc_tag int tdef value ≡ ok tt)

  add_tag-IsChecked :
      (name value : Text) (tags after : Dict Text Text)
      → add_tag int name value tags ≡ ok after
      → IsChecked tags
      → IsChecked after
  add_tag-IsChecked name value tags after added checked name' value' found =
      let (tdef, known, rest) =
        >>=-eq-ok (or_raise (lookup name dmarc_tags) dns_syntax_error)
          (λ tdef. check_dmarc_tag int tdef value >>= (λ _. ok (insert name value tags))) added in
      let (passed, valid, stored) =
        >>=-eq-ok (check_dmarc_tag int tdef value) (λ _. ok (insert name value tags)) rest in
      let same = ok_injective stored in
      let here = sym (lookup-insert name name' value tags) ∙ ap (lookup name') same ∙ found in
      elim (Bool-cases (name == name')) [
        | inl e ↦
            let value_is = some_injective (sym (if_true _ e) ∙ here) in
            let name_is = (==_iff name name').0 e in
            (
              tdef,
              ap (λ n. lookup n dmarc_tags) (sym name_is)
                  ∙ or_raise-ok (lookup name dmarc_tags) dns_syntax_error known,
              ap (check_dmarc_tag int tdef) (sym value_is) ∙ valid,
            )
        | inr e ↦ checked name' value' (sym (if_false _ e) ∙ here)
      ]

  add_pair-IsChecked :
      (parts : List Text) (tags after : Dict Text Text)
      → add_pair int parts tags ≡ ok after
      → IsChecked tags
      → IsChecked after
  add_pair-IsChecked [] tags after added checked = err-ok added
  add_pair-IsChecked (x ∷ []) tags after added checked = err-ok added
  add_pair-IsChecked (x ∷ y ∷ []) tags after added checked =
      add_tag-IsChecked (strip b' ' x) (strip b' ' y) tags after added checked
  add_pair-IsChecked (x ∷ y ∷ z ∷ more) tags after added checked = err-ok added

  dmarc_tag-IsChecked :
      (tag : Text) (tags after : Dict Text Text)
      → dmarc_tag int tag tags ≡ ok after
      → IsChecked tags
      → IsChecked after
  dmarc_tag-IsChecked [] tags after added checked = subst IsChecked (ok_injective added) checked
  dmarc_tag-IsChecked (c ∷ tag) tags after added checked =
      add_pair-IsChecked (split_char b'=' (strip b' ' (c ∷ tag))) tags after added checked

  collect_tags-IsChecked :
      (parts : List Text) (tags after : Dict Text Text)
      → collect_tags int parts tags ≡ ok after
      → IsChecked tags
      → IsChecked after
  unfolding collect_tags
  collect_tags-IsChecked [] tags after collected checked =
      subst IsChecked (ok_injective collected) checked
  collect_tags-IsChecked (tag ∷ parts) tags after collected checked =
      let (next, added, rest) =
        >>=-eq-ok (dmarc_tag int tag tags) (λ after. collect_tags int parts after) collected in
      collect_tags-IsChecked parts next after rest (dmarc_tag-IsChecked tag tags next added checked)

  is_one_of-In :
      (values : List Text) (value : Text) → is_one_of values value ≡ true → In value values
  is_one_of-In [] value h = false-true h
  is_one_of-In (v ∷ values) value h = elim (Bool-cases (v == value)) [
    | inl e ↦ inl (sym ((==_iff v value).0 e))
    | inr e ↦ inr (is_one_of-In values value (sym (ap (λ b. b || is_one_of values value) e) ∙ h))
  ]

  policy_of :
      (tags : Dict Text Text)
      → IsChecked tags
      → (found : Option Text) → lookup (codes "p") tags ≡ found
      → is_some found ≡ true
      → (policy : Text) × (lookup (codes "p") tags ≡ some policy) × In policy policies
  policy_of tags checked none found there = false-true there
  policy_of tags checked (some policy) found there =
      let (tdef, known, valid) = checked (codes "p") policy found in
      let passed = ap (λ d. check_dmarc_tag int d policy) (some_injective known) ∙ valid in
      (
        policy,
        found,
        is_one_of-In policies policy
            (not-false (refuse_if-ok (not (is_one_of policies policy)) passed)),
      )

  percentage_of :
      (tags : Dict Text Text)
      → IsChecked tags
      → (value : Text) → lookup (codes "pct") tags ≡ some value
      → (n : ℤ) × (int value ≡ some n) × (pos 0 ≤ℤ n) × (n ≤ℤ pos 100)
  percentage_of tags checked value found =
      let (tdef, known, valid) = checked (codes "pct") value found in
      let passed = ap (λ d. check_dmarc_tag int d value) (some_injective known) ∙ valid in
      let (n, read, rest) =
        >>=-eq-ok (or_raise (int value) dns_syntax_error)
          (λ n. refuse_if (below n (some (pos 0))) >>= (λ _. refuse_if (above n (some (pos 100)))))
          passed in
      let (small, low, high) =
        >>=-eq-ok (refuse_if (below n (some (pos 0)))) (λ _. refuse_if (above n (some (pos 100))))
          rest in
      let not_low = refuse_if-ok (below n (some (pos 0))) low in
      let not_high = refuse_if-ok (above n (some (pos 100))) high in
      (n, or_raise-ok (int value) dns_syntax_error read, ground arith, ground arith)

  -- The tags of an accepted DMARC record have a policy, which is "none", "quarantine" or
  -- "reject", and the percentage, where there is one, is a number from 0 to 100.
  pub check_dmarc_syntax-Says :
      (text : Text)
      → check_dmarc_syntax int text ≡ ok tt
      → (tags : Dict Text Text) × (collect_tags int (tail (split_char b';' text)) [] ≡ ok tags)
        × ((policy : Text) × (lookup (codes "p") tags ≡ some policy) × In policy policies)
        × ((value : Text)
            → lookup (codes "pct") tags ≡ some value
            → (n : ℤ) × (int value ≡ some n) × (pos 0 ≤ℤ n) × (n ≤ℤ pos 100))
  unfolding check_dmarc_syntax
  check_dmarc_syntax-Says text accepted = elim (Bool-cases (starts_with (codes "v=DMARC1") text)) [
    | inl e ↦
        let (tags, collected, complete) =
          >>=-eq-ok (collect_tags int (tail (split_char b';' text)) [])
            (λ tags. refuse_if (not (contains (codes "p") tags)))
            (sym (if_false _ (ap not e)) ∙ accepted) in
        let checked =
          collect_tags-IsChecked (tail (split_char b';' text)) [] tags collected
            (λ name value h. none-some h) in
        let there = not-false (refuse_if-ok (not (contains (codes "p") tags)) complete) in
        (
          tags,
          collected,
          policy_of tags checked (lookup (codes "p") tags) refl there,
          percentage_of tags checked,
        )
    | inr e ↦ err-ok (sym (if_true _ (ap not e)) ∙ accepted)
  ]
