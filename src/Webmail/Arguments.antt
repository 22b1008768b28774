-- ===== src/Webmail/Arguments.antt =====
-- The arguments of IMAP commands that come from outside: validate_imap_uid, validate_imap_partnum,
-- escape_search_pattern and IMAPconnector.parse_search_parameters of
-- modoboa/webmail/lib/imaputils.py. The regular expressions are read as Python documents them.
pub mod Numbers
pub mod Quoted
use mrt_post_office.Prelude.{
  ℕ, ◌+◌, Bool, true, false, not, ◌&&◌, ◌||◌, Option, none, some, List, [], ◌∷◌, ◌++◌, Text, ltb,
  leb, if◌then◌else◌, ◌==◌, nat_eq, text_eq, any,
}
use mrt_post_office.Prelude.Chars.{codes, split_char, replace, is_digit}
use mrt_post_office.Prelude.Result.{Result, ok, err, ◌>>=◌}

-- ImapError
pub data Error : Type 0 where
  invalid_message_identifier invalid_part_number invalid_search_pattern : Error

abbrev pub line_feed : ℕ
line_feed = 10

-- `^[0-9]+(?:,[0-9]+)*$`, with `separator` for the comma; `first` where a digit has to follow. The
-- dollar sign stands for the end and for the place before a line feed at the end.
unfoldable pub match_numbers : (separator : ℕ) → (first : Bool) → Text → Bool
match_numbers separator first [] = not first
match_numbers separator true (c ∷ s) = is_digit c && match_numbers separator false s
match_numbers separator false (c ∷ s) =
    let number = match_numbers separator false s in
    let next = match_numbers separator true s in
    if is_digit c then number else if c == separator then next else c == line_feed && s == []

abbrev pub validate : ℕ → Error → Option Text → Result Error Text
validate separator error none = err error
validate separator error (some value) =
    if not (match_numbers separator true value) then err error else ok value

unfoldable pub validate_imap_uid : Option Text → Result Error Text
validate_imap_uid value = validate b',' invalid_message_identifier value

unfoldable pub validate_imap_partnum : Option Text → Result Error Text
validate_imap_partnum value = validate b'.' invalid_part_number value

-- below 0x20, or 0x7F
abbrev pub is_control : ℕ → Bool
is_control c = ltb c 32 || c == 127

unfoldable pub escape_search_pattern : Text → Result Error Text
escape_search_pattern pattern =
    if any is_control pattern
    then err invalid_search_pattern
    else ok (replace b'"' (b'\\' ∷ b'"' ∷ []) (replace b'\\' (b'\\' ∷ b'\\' ∷ []) pattern))

abbrev pub or_criterion : Text → Text → Text
or_criterion old c = if old == [] then c else codes "OR " ++ old ++ b' ' ∷ c

-- `({key} "{pattern}")`
abbrev pub search_key : Text → Text → Text
search_key key pattern = b'(' ∷ key ++ codes " \"" ++ pattern ++ codes "\")"

abbrev pub key_of : Text → Option Text
key_of c =
    if c == codes "from_addr"
    then some (codes "FROM")
    else if c == codes "subject"
    then some (codes "SUBJECT")
    else none

abbrev pub add_key : Option Text → Text → Text → Text
add_key none pattern criterions = criterions
add_key (some key) pattern criterions = or_criterion criterions (search_key key pattern)

abbrev pub add_criterions : List Text → Text → Text → Text
add_criterions [] pattern criterions = criterions
add_criterions (c ∷ cs) pattern criterions =
    add_criterions cs pattern (add_key (key_of c) pattern criterions)

-- The text of `self.criterions`; `none` for a pattern that is None.
unfoldable pub parse_search_parameters : Text → Option Text → Result Error Text
parse_search_parameters criterion none = ok (codes "ALL")
parse_search_parameters criterion (some []) = ok (codes "ALL")
parse_search_parameters criterion (some (c ∷ pattern)) = do
  escaped ← escape_search_pattern (c ∷ pattern)
  let asked = if criterion == codes "both" then codes "from_addr,subject" else criterion
  ok (add_criterions (split_char b',' asked) escaped [])
