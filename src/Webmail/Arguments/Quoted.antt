-- ===== src/Webmail/Arguments/Quoted.antt =====
-- A pattern in a quoted string stays there.
use mrt_post_office.Prelude.{
  ℕ, false, ◌||◌, ◌≡◌, refl, Option, none, some, [], ◌∷◌, ◌++◌, Text, if◌then◌else◌, ◌==◌, ==_iff,
  nat_eq, text_eq, any, arith, ap, sym, ◌∙◌, Bool-cases, inl, inr, if_true, if_false,
}
use mrt_post_office.Prelude.Bools.{or_left, or_right}
use mrt_post_office.Prelude.Chars.{replace}
use mrt_post_office.Prelude.Result.{ok, err-ok, ok_injective}
use mrt_post_office.Webmail.Arguments.{is_control, escape_search_pattern}

abbrev cons : ℕ → Option (Text × Text) → Option (Text × Text)
cons c none = none
cons c (some (text, rest)) = some (c ∷ text, rest)

-- A quoted string of RFC 3501 after its opening quote, as a server reads it: the text, and what
-- follows the closing quote. No control character stands in it, and a backslash only before a
-- quote or a backslash.
abbrev pub read_quoted : Text → Option (Text × Text)
read_quoted [] = none
read_quoted (c ∷ []) = if c == b'"' then some ([], []) else none
read_quoted (c ∷ d ∷ s) =
    let plain = read_quoted (d ∷ s) in
    let escaped = read_quoted s in
    if c == b'"'
    then some ([], d ∷ s)
    else if c == b'\\'
    then (if d == b'"' || d == b'\\' then cons d escaped else none)
    else if is_control c
    then none
    else cons c plain

abbrev escape : Text → Text
escape pattern = replace b'"' (b'\\' ∷ b'"' ∷ []) (replace b'\\' (b'\\' ∷ b'\\' ∷ []) pattern)

escape_cons :
    (c : ℕ) (pattern : Text)
    → escape (c ∷ pattern) ≡ (
        if c == b'\\'
        then b'\\' ∷ b'\\' ∷ escape pattern
        else if c == b'"'
        then b'\\' ∷ b'"' ∷ escape pattern
        else c ∷ escape pattern)
escape_cons c pattern = ground arith

read_plain :
    (c : ℕ) (s : Text)
    → (c == b'"') ≡ false
    → (c == b'\\') ≡ false
    → is_control c ≡ false
    → read_quoted (c ∷ s) ≡ cons c (read_quoted s)
read_plain c [] e1 e2 e3 = if_false _ e1
read_plain c (d ∷ s) e1 e2 e3 = if_false _ e1 ∙ if_false _ e2 ∙ if_false _ e3

read_end : (rest : Text) → read_quoted (b'"' ∷ rest) ≡ some ([], rest)
read_end [] = refl
read_end (c ∷ rest) = refl

pub read_quoted-escape :
    (pattern rest : Text)
    → any is_control pattern ≡ false
    → read_quoted (escape pattern ++ b'"' ∷ rest) ≡ some (pattern, rest)
read_quoted-escape [] rest clean = read_end rest
read_quoted-escape (c ∷ pattern) rest clean =
    let printable : is_control c ≡ false = or_left (is_control c) (any is_control pattern) clean in
    let others : any is_control pattern ≡ false =
      or_right (is_control c) (any is_control pattern) clean in
    let read_rest = read_quoted-escape pattern rest others in
    ap (λ e. read_quoted (e ++ b'"' ∷ rest)) (escape_cons c pattern)
    ∙ elim (Bool-cases (c == b'\\')) [
      | inl e ↦
          ap (λ t. read_quoted (t ++ b'"' ∷ rest)) (if_true _ e)
          ∙ ap (cons b'\\') read_rest
          ∙ ap (λ x. some (x ∷ pattern, rest)) (sym ((==_iff c b'\\').0 e))
      | inr e ↦
          ap (λ t. read_quoted (t ++ b'"' ∷ rest)) (if_false _ e) ∙ elim (Bool-cases (c == b'"')) [
            | inl q ↦
                ap (λ t. read_quoted (t ++ b'"' ∷ rest)) (if_true _ q)
                ∙ ap (cons b'"') read_rest
                ∙ ap (λ x. some (x ∷ pattern, rest)) (sym ((==_iff c b'"').0 q))
            | inr q ↦
                ap (λ t. read_quoted (t ++ b'"' ∷ rest)) (if_false _ q)
                ∙ read_plain c (escape pattern ++ b'"' ∷ rest) q e printable
                ∙ ap (cons c) read_rest
          ]
    ]

-- A search pattern that is accepted, put between double quotes, is read by an IMAP server as that
-- pattern, and the string ends at the closing quote, whatever follows.
pub read_quoted-escape_search_pattern :
    (pattern escaped rest : Text)
    → escape_search_pattern pattern ≡ ok escaped
    → read_quoted (escaped ++ b'"' ∷ rest) ≡ some (pattern, rest)
unfolding escape_search_pattern
read_quoted-escape_search_pattern pattern escaped rest accepted =
    elim (Bool-cases (any is_control pattern)) [
      | inl e ↦ err-ok (sym (if_true _ e) ∙ accepted)
      | inr e ↦
          let same = ok_injective (sym (if_false _ e) ∙ accepted) in
          ap (λ t. read_quoted (t ++ b'"' ∷ rest)) (sym same) ∙ read_quoted-escape pattern rest e
    ]
