-- ===== src/Webmail/Tests.antt =====
-- Identifiers and patterns as they come from outside.
use mrt_post_office.Prelude.{◌≡◌, refl, none, some, [], ◌∷◌, ◌++◌, text_eq, nat_eq}
use mrt_post_office.Prelude.Chars.{codes, split_char}
use mrt_post_office.Prelude.Result.{ok, err}
use mrt_post_office.Webmail.Arguments.{
  invalid_message_identifier, line_feed, match_numbers, validate_imap_uid, validate_imap_partnum,
  escape_search_pattern, parse_search_parameters,
}
use mrt_post_office.Webmail.Arguments.Numbers.{
  IsHarmless, validate_imap_uid-IsHarmless, validate_imap_uid-line_feed,
}
use mrt_post_office.Webmail.Arguments.Quoted.{read_quoted, read_quoted-escape_search_pattern}

uids : validate_imap_uid (some (codes "12,7")) ≡ ok (codes "12,7")
unfolding validate_imap_uid match_numbers
uids = refl

no_uid :
    (validate_imap_uid (some (codes "12,")) ≡ err invalid_message_identifier)
    × (validate_imap_uid none ≡ err invalid_message_identifier)
unfolding validate_imap_uid match_numbers
no_uid = (refl, refl)

part : validate_imap_partnum (some (codes "2.1")) ≡ ok (codes "2.1")
unfolding validate_imap_partnum match_numbers
part = refl

both_keys :
    parse_search_parameters (codes "both") (some (codes "x"))
    ≡ ok (codes "OR (FROM \"x\") (SUBJECT \"x\")")
unfolding parse_search_parameters escape_search_pattern split_char
both_keys = refl

-- A criterion that is not known leaves no criterion at all.
no_criterion : parse_search_parameters (codes "body") (some (codes "x")) ≡ ok []
unfolding parse_search_parameters escape_search_pattern split_char
no_criterion = refl

validate_imap_uid-IsHarmless_example :
    (codes "12,7" ≡ codes "12,7") × IsHarmless b',' (codes "12,7")
validate_imap_uid-IsHarmless_example =
    validate_imap_uid-IsHarmless (codes "12,7") (codes "12,7") uids

line_feed_passes :
    validate_imap_uid (some (codes "12,7" ++ line_feed ∷ [])) ≡ ok (codes "12,7" ++ line_feed ∷ [])
line_feed_passes =
    validate_imap_uid-line_feed (codes "12,7") (refl, (refl, (refl, (refl, tt)))) uids

read_quoted-escape_search_pattern_example :
    read_quoted (codes "say \\\"hi\\\"" ++ b'"' ∷ codes ")") ≡ some (codes "say \"hi\"", codes ")")
read_quoted-escape_search_pattern_example =
    read_quoted-escape_search_pattern (codes "say \"hi\"") (codes "say \\\"hi\\\"") (codes ")")
      (unfold escape_search_pattern in refl)
