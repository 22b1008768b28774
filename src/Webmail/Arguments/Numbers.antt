-- ===== src/Webmail/Arguments/Numbers.antt =====
-- Which texts the checks of identifiers and part numbers let through.
use mrt_post_office.Prelude.{
  ℕ, Bool, true, false, not, ◌||◌, ◌≡◌, refl, some, [], ◌∷◌, ◌++◌, Text, ◌==◌, ==_iff, nat_eq,
  text_eq, arith, ap, sym, ◌∙◌, Bool-cases, inl, inr, if_true, if_false, subst, ⊤, All, ◌⊎◌,
}
use mrt_post_office.Prelude.Bools.{or_true, and_left, and_right, and_both, false-true}
use mrt_post_office.Prelude.Chars.{is_digit}
use mrt_post_office.Prelude.Result.{ok, err-ok, ok_injective}
use mrt_post_office.Webmail.Arguments.{line_feed, match_numbers, validate_imap_uid}

-- Digits and separators, and perhaps one line feed at the end
abbrev pub IsHarmless : ℕ → Text → Type 0
IsHarmless separator [] = ⊤
IsHarmless separator (c ∷ s) =
    (((is_digit c || c == separator) ≡ true) ⊎ ((c ≡ line_feed) × (s ≡ [])))
    × IsHarmless separator s

match_numbers-IsHarmless :
    (separator : ℕ) (first : Bool) (s : Text)
    → match_numbers separator first s ≡ true
    → IsHarmless separator s
unfolding match_numbers
match_numbers-IsHarmless separator first [] matched = tt
match_numbers-IsHarmless separator true (c ∷ s) matched = (
  inl (
      ap (λ b. b || c == separator)
        (and_left (is_digit c) (match_numbers separator false s) matched)),
  match_numbers-IsHarmless separator false s
      (and_right (is_digit c) (match_numbers separator false s) matched),
)
match_numbers-IsHarmless separator false (c ∷ s) matched = elim (Bool-cases (is_digit c)) [
  | inl e ↦ (
    inl (ap (λ b. b || c == separator) e),
    match_numbers-IsHarmless separator false s (sym (if_true _ e) ∙ matched),
  )
  | inr e ↦
      let other = sym (if_false _ e) ∙ matched in
      elim (Bool-cases (c == separator)) [
        | inl q ↦ (
          inl (ap (λ b. is_digit c || b) q ∙ or_true (is_digit c) refl),
          match_numbers-IsHarmless separator true s (sym (if_true _ q) ∙ other),
        )
        | inr q ↦
            let last = sym (if_false _ q) ∙ other in
            let end = (==_iff s []).0 (and_right (c == line_feed) (s == []) last) in
            (
              inr ((==_iff c line_feed).0 (and_left (c == line_feed) (s == []) last), end),
              subst (IsHarmless separator) (sym end) tt,
            )
      ]
]

-- The check is the pattern; a line feed may follow what it lets through.
match_numbers-line_feed :
    (separator : ℕ) (first : Bool) (s : Text)
    → All (λ c. (c == line_feed) ≡ false) s
    → (separator == line_feed) ≡ false
    → match_numbers separator first s ≡ true
    → match_numbers separator first (s ++ line_feed ∷ []) ≡ true
unfolding match_numbers
match_numbers-line_feed separator true [] plain other matched = cc
match_numbers-line_feed separator false [] plain other matched =
    let ne : (line_feed == separator) ≡ false = ground arith in if_false false ne
match_numbers-line_feed separator true (c ∷ s) (here, rest) other matched =
    and_both (and_left (is_digit c) (match_numbers separator false s) matched) (
      match_numbers-line_feed separator false s rest other
        (and_right (is_digit c) (match_numbers separator false s) matched))
match_numbers-line_feed separator false (c ∷ s) (here, rest) other matched =
    elim (Bool-cases (is_digit c)) [
      | inl e ↦
          if_true _ e
          ∙ match_numbers-line_feed separator false s rest other (sym (if_true _ e) ∙ matched)
      | inr e ↦
          let left = sym (if_false _ e) ∙ matched in
          elim (Bool-cases (c == separator)) [
            | inl q ↦
                if_false _ e
                ∙ if_true _ q
                ∙ match_numbers-line_feed separator true s rest other (sym (if_true _ q) ∙ left)
            | inr q ↦
                let last = sym (if_false _ q) ∙ left in
                false-true (sym here ∙ and_left (c == line_feed) (s == []) last)
          ]
    ]

-- A message identifier that passes is returned as it is, and it has only digits and commas, and
-- perhaps a line feed as its last character.
pub validate_imap_uid-IsHarmless :
    (value passed : Text)
    → validate_imap_uid (some value) ≡ ok passed
    → (passed ≡ value) × IsHarmless b',' value
unfolding validate_imap_uid
validate_imap_uid-IsHarmless value passed accepted =
    elim (Bool-cases (match_numbers b',' true value)) [
      | inl e ↦ (
        sym (ok_injective (sym (if_false _ (ap not e)) ∙ accepted)),
        match_numbers-IsHarmless b',' true value e,
      )
      | inr e ↦ err-ok (sym (if_true _ (ap not e)) ∙ accepted)
    ]

pub validate_imap_uid-line_feed :
    (value : Text)
    → All (λ c. (c == line_feed) ≡ false) value
    → validate_imap_uid (some value) ≡ ok value
    → validate_imap_uid (some (value ++ line_feed ∷ [])) ≡ ok (value ++ line_feed ∷ [])
unfolding validate_imap_uid
validate_imap_uid-line_feed value plain accepted =
    elim (Bool-cases (match_numbers b',' true value)) [
      | inl e ↦ if_false _ (ap not (match_numbers-line_feed b',' true value plain refl e))
      | inr e ↦ err-ok (sym (if_true _ (ap not e)) ∙ accepted)
    ]
