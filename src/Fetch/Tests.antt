-- ===== src/Fetch/Tests.antt =====
-- A response with two flags, and a structure with a part in a part.
use mrt_post_office.Prelude.{
  ◌≡◌, ◌==◌, ◌||◌, if◌then◌else◌, refl, List, [], ◌∷◌, Text, nat_eq, some, none,
}
use mrt_post_office.Prelude.Chars.{codes}
use mrt_post_office.Prelude.Dict.{insert}
use mrt_post_office.Prelude.Result.{ok, err}
use mrt_post_office.Prelude.Int.{◌+ℤ◌}
use mrt_post_office.Fetch.Structure.{
  parse_error, TokenType, flag, data_item, nothing, item, part, list, text, set_part_numbers,
}
use mrt_post_office.Fetch.Parser.{
  parse_tokens, token_step, flags_args_parser, parse_data_item, default_args_parser,
}
use mrt_post_office.Fetch.Flags.{
  message_tokens, at_rest, flags_message, parse_tokens-message_tokens,
}

abbrev flags : List Text
flags = codes "\\Seen" ∷ codes "$Junk" ∷ []

-- What the lexer says of a word: a flag where it starts with a backslash or a dollar sign, and a
-- data item where it is in capital letters
abbrev type_of : Text → TokenType
type_of [] = flag
type_of (c ∷ word) = if c == b'\\' || c == b'$' then flag else data_item

parse_tokens-message_tokens_example :
    parse_tokens (message_tokens type_of (codes "1") (codes "42") flags) (at_rest [] [])
    ≡ ok (at_rest (insert 42 (flags_message flags) []) (codes "FLAGS"))
parse_tokens-message_tokens_example =
    parse_tokens-message_tokens type_of [] [] (codes "1") (codes "42") 42 flags refl
      (refl, (refl, tt))

-- a keyword in capital letters
keyword_refused :
    parse_tokens
      (message_tokens type_of (codes "1") (codes "42") (codes "JUNK" ∷ []))
      (at_rest [] [])
    ≡ err parse_error
unfolding parse_tokens token_step flags_args_parser parse_data_item default_args_parser ◌+ℤ◌
keyword_refused = refl

numbered :
    set_part_numbers [] 1 (
      item
        (part (item (list (item (part (item (text []) nothing) none) nothing)) nothing) none)
        nothing)
    ≡ ok (
        item
          (part
            (item (list (item (part (item (text []) nothing) (some (1 ∷ 1 ∷ []))) nothing)) nothing)
            (some (1 ∷ [])))
          nothing)
unfolding set_part_numbers
numbered = refl
