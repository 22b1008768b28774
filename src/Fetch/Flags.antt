-- ===== src/Fetch/Flags.antt =====
-- Responses with the flags of messages are read back.
use mrt_post_office.Prelude.{
  ℕ, ◌≡◌, refl, true, All, Option, none, some, List, [], ◌∷◌, Text, nat_eq, text_eq,
}
use mrt_post_office.Prelude.Int.{pos, ◌+ℤ◌}
use mrt_post_office.Prelude.Chars.{codes}
use mrt_post_office.Prelude.Dict.{Dict, insert}
use mrt_post_office.Prelude.Result.{ok}
use mrt_post_office.Fetch.Structure.{
  TokenType, left_parenthesis, right_parenthesis, data_item, number, flag, text, list, Values,
  nothing, append, to_int,
}
use mrt_post_office.Fetch.Parser.{
  Token, Message, Parser, reset, flags_args, is_expected, token_step, parse_tokens,
  default_args_parser, flags_args_parser, parse_data_item,
}

abbrev pub opening : Token
opening = (left_parenthesis, codes "(")

abbrev pub closing : Token
closing = (right_parenthesis, codes ")")

-- `flag ... flag))`, where `type_of` is the type that the lexer gives to a word
abbrev pub flag_tokens : (Text → TokenType) → List Text → List Token
flag_tokens type_of [] = closing ∷ closing ∷ []
flag_tokens type_of (t ∷ flags) = (type_of t, t) ∷ flag_tokens type_of flags

-- `n (UID uid FLAGS (flag ... flag))`
abbrev pub message_tokens : (Text → TokenType) → Text → Text → List Text → List Token
message_tokens type_of n uid flags =
    (number, n)
    ∷ opening
    ∷ (data_item, codes "UID")
    ∷ (number, uid)
    ∷ (data_item, codes "FLAGS")
    ∷ opening
    ∷ flag_tokens type_of flags

abbrev pub append_flags : Values → List Text → Values
append_flags vs [] = vs
append_flags vs (t ∷ flags) = append_flags (append vs (text t)) flags

-- what is stored for the message
abbrev pub flags_message : List Text → Message
flags_message flags = (codes "FLAGS", list (append_flags nothing flags)) ∷ []

-- the parser between two messages: only the data item is left from the last one
abbrev pub at_rest : Dict ℕ Message → Text → Parser
at_rest messages name = record reset { result = messages; cur_data_item = name }

abbrev pub reading : Dict ℕ Message → Text → Values → Option (List TokenType) → Parser
reading messages uid vs expected = record reset {
  result = messages;
  current_message = (codes "UID", text uid) ∷ (codes "FLAGS", list vs) ∷ [];
  cur_data_item = codes "FLAGS";
  args_parsing_func = some flags_args;
  expected = expected;
  depth = pos 2;
}

abbrev Allowed : Option (List TokenType) → Type 0
Allowed expected =
    (is_expected expected flag ≡ true) × (is_expected expected right_parenthesis ≡ true)

parse_tokens-closing :
    (messages : Dict ℕ Message) (uid : Text) (n : ℕ) (vs : Values)
    (expected : Option (List TokenType))
    → to_int uid ≡ ok n
    → Allowed expected
    → parse_tokens (closing ∷ closing ∷ []) (reading messages uid vs expected)
      ≡ ok (at_rest (insert n ((codes "FLAGS", list vs) ∷ []) messages) (codes "FLAGS"))
unfolding parse_tokens token_step flags_args_parser parse_data_item ◌+ℤ◌
parse_tokens-closing messages uid n vs expected e (f, g) = rw (g, e)

parse_tokens-flag_tokens :
    (type_of : Text → TokenType) (messages : Dict ℕ Message) (uid : Text) (n : ℕ)
    (flags : List Text) (vs : Values) (expected : Option (List TokenType))
    → to_int uid ≡ ok n
    → All (λ t. type_of t ≡ flag) flags
    → Allowed expected
    → parse_tokens (flag_tokens type_of flags) (reading messages uid vs expected)
      ≡ ok (
          at_rest
            (insert n ((codes "FLAGS", list (append_flags vs flags)) ∷ []) messages)
            (codes "FLAGS"))
unfolding parse_tokens token_step flags_args_parser
parse_tokens-flag_tokens type_of messages uid n [] vs expected e typed allowed =
    parse_tokens-closing messages uid n vs expected e allowed
parse_tokens-flag_tokens type_of messages uid n (t ∷ flags) vs expected e (here, typed) allowed =
    rw (here, allowed.0)
      (parse_tokens-flag_tokens type_of messages uid n flags (append vs (text t))
        (some (flag ∷ right_parenthesis ∷ [])) e typed (refl, refl))

-- Between two messages, the tokens of a response with a UID of digits and words to which the
-- lexer gives the type of a flag, as to those with a backslash or a dollar sign in front, are
-- accepted: the flags are stored in their order under the UID, and the parser is between messages
-- again.
pub parse_tokens-message_tokens :
    (type_of : Text → TokenType) (messages : Dict ℕ Message) (name number' uid : Text) (n : ℕ)
    (flags : List Text)
    → to_int uid ≡ ok n
    → All (λ t. type_of t ≡ flag) flags
    → parse_tokens (message_tokens type_of number' uid flags) (at_rest messages name)
      ≡ ok (at_rest (insert n (flags_message flags) messages) (codes "FLAGS"))
unfolding parse_tokens token_step flags_args_parser parse_data_item default_args_parser ◌+ℤ◌
parse_tokens-message_tokens type_of messages name number' uid n flags e typed =
    parse_tokens-flag_tokens type_of messages uid n flags nothing none e typed (refl, refl)
