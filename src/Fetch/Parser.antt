-- ===== src/Fetch/Parser.antt =====
-- `class FetchResponseParser` of modoboa/webmail/lib/fetch_parser.py. The lexer runs on regular
-- expressions of a library, so what it makes of a chunk is an argument.
use mrt_post_office.Prelude.{
  ℕ, zero, suc, Bool, true, false, Option, none, some, List, [], ◌∷◌, Text, if◌then◌else◌, ◌==◌,
  nat_eq, nat_eqb, text_eq, any,
}
use mrt_post_office.Prelude.Int.{ℤ, pos, negsuc, ◌+ℤ◌, eqb_ℤ}
use mrt_post_office.Prelude.Chars.{codes}
use mrt_post_office.Prelude.Dict.{Dict, lookup, insert, erase}
use mrt_post_office.Prelude.Result.{Result, ok, err, ◌>>=◌}
use mrt_post_office.Fetch.Structure.{
  TokenType, left_parenthesis, right_parenthesis, string, nil, data_item, number, literal_marker,
  flag, literal, Error, parse_error, value_error, type_error, assertion_error, Value, text, list,
  Values, nothing, append, to_int, Step, going, finished, bstruct_step,
}

abbrev pub Token : Type 0
Token = TokenType × Text

abbrev pub type_code : TokenType → ℕ
type_code left_parenthesis = 0
type_code right_parenthesis = 1
type_code string = 2
type_code nil = 3
type_code data_item = 4
type_code number = 5
type_code literal_marker = 6
type_code flag = 7
type_code literal = 8

-- `__args_parsing_func`
pub data ArgsParser : Type 0 where
  default_args flags_args bstruct_args : ArgsParser

abbrev pub Message : Type 0
Message = Dict Text Value

pub record Parser : Type 0 where
  pub result : Dict ℕ Message
  pub current_message : Message
  pub next_literal_len : ℕ
  pub cur_data_item : Text
  pub args_parsing_func : Option ArgsParser
  pub expected : Option (List TokenType)
  pub depth : ℤ
  pub bs_stack : List Values

-- `__reset_parser`; no data item is the empty text
abbrev pub reset : Parser
reset = record {
  result = [];
  current_message = [];
  next_literal_len = 0;
  cur_data_item = [];
  args_parsing_func = none;
  expected = none;
  depth = pos 0;
  bs_stack = [];
}

-- `__current_message[__cur_data_item] = v`
abbrev pub set_item : Value → Parser → Parser
set_item v p = record p { current_message = insert p.cur_data_item v p.current_message }

unfoldable pub default_args_parser : Text → Parser → Parser
default_args_parser t p = record (set_item (text t) p) { args_parsing_func = none }

abbrev pub append_flag : Option Value → Text → Result Error Value
append_flag (some (list flags)) t = ok (list (append flags (text t)))
append_flag (some _) t = err type_error
append_flag none t = err type_error

unfoldable pub flags_args_parser : TokenType → Text → Parser → Result Error Parser
flags_args_parser left_parenthesis t p =
    ok (record (set_item (list nothing) p) { depth = p.depth +ℤ pos 1 })
flags_args_parser flag t p = do
  flags ← append_flag (lookup p.cur_data_item p.current_message) t
  ok (record (set_item flags p) { expected = some (flag ∷ right_parenthesis ∷ []) })
flags_args_parser right_parenthesis t p =
    ok (record p { args_parsing_func = none; depth = p.depth +ℤ negsuc 0 })
flags_args_parser _ t p = err parse_error

abbrev pub store_step : Step → Parser → Parser
store_step (going stack) p = record p { bs_stack = stack }
store_step (finished structure) p = record (set_item (list structure) p) {
  bs_stack = [];
  args_parsing_func = none;
}

unfoldable pub bstruct_args_parser : TokenType → Text → Parser → Result Error Parser
bstruct_args_parser ttype t p = do step ← bstruct_step ttype t p.bs_stack; ok (store_step step p)

abbrev pub find_item : Text → Parser → Parser
find_item t p =
    if t == codes "BODYSTRUCTURE"
    then record p {
      cur_data_item = t;
      expected = some (left_parenthesis ∷ []);
      args_parsing_func = some bstruct_args;
    }
    else if t == codes "FLAGS"
    then record p {
      cur_data_item = t;
      expected = some (left_parenthesis ∷ []);
      args_parsing_func = some flags_args;
    }
    else record p { cur_data_item = t; args_parsing_func = some default_args }

-- `int(...)` of a value: a list is refused
abbrev pub value_to_int : Value → Result Error ℕ
value_to_int (text t) = to_int t
value_to_int (Value.int n) = ok n
value_to_int (list _) = err type_error
value_to_int (Value.part _ _) = err type_error

-- a message without UID is forgotten
abbrev pub store_message : Option Value → Parser → Result Error Parser
store_message none p = ok (record p { current_message = [] })
store_message (some uid) p = do
  n ← value_to_int uid
  ok (record p {
    result = insert n (erase (codes "UID") p.current_message) p.result;
    current_message = [];
  })

abbrev pub close_message : Parser → Result Error Parser
close_message p =
    if eqb_ℤ p.depth (pos 0)
    then store_message (lookup (codes "UID") p.current_message) p
    else err assertion_error

unfoldable pub parse_data_item : TokenType → Text → Parser → Result Error Parser
parse_data_item data_item t p = ok (find_item t p)
parse_data_item right_parenthesis t p = close_message (record p { depth = p.depth +ℤ negsuc 0 })
parse_data_item _ t p = err parse_error

abbrev pub call_args_parser : ArgsParser → TokenType → Text → Parser → Result Error Parser
call_args_parser default_args ttype t p = ok (default_args_parser t p)
call_args_parser flags_args ttype t p = flags_args_parser ttype t p
call_args_parser bstruct_args ttype t p = bstruct_args_parser ttype t p

-- `ttype not in self.__expected`, and `__expected = None`
abbrev pub is_expected : Option (List TokenType) → TokenType → Bool
is_expected none ttype = true
is_expected (some types) ttype = any (λ e. nat_eqb (type_code e) (type_code ttype)) types

-- outside of a message: a number announces a parenthesis, which opens one
abbrev pub outside : TokenType → Parser → Parser
outside number p = record p { expected = some (left_parenthesis ∷ []) }
outside left_parenthesis p = record p { depth = p.depth +ℤ pos 1 }
outside _ p = p

-- `int(tvalue[1:-1])` of `{n}`
abbrev pub without_last : Text → Text
without_last [] = []
without_last (c ∷ []) = []
without_last (c ∷ d ∷ s) = c ∷ without_last (d ∷ s)

abbrev pub marker_length : Text → Result Error ℕ
marker_length [] = err value_error
marker_length (c ∷ t) = to_int (without_last t)

abbrev pub inside : Option ArgsParser → TokenType → Text → Parser → Result Error Parser
inside none ttype t p = parse_data_item ttype t p
inside (some parser) ttype t p = call_args_parser parser ttype t p

abbrev pub dispatch : TokenType → Text → Parser → Result Error Parser
dispatch literal_marker t p = do n ← marker_length t; ok (record p { next_literal_len = n })
dispatch ttype t p =
    if eqb_ℤ p.depth (pos 0) then ok (outside ttype p) else inside p.args_parsing_func ttype t p

-- the body of the loop over the tokens
unfoldable pub token_step : Token → Parser → Result Error Parser
unfolding default_args_parser flags_args_parser bstruct_args_parser parse_data_item
token_step (ttype, t) p =
    if is_expected p.expected ttype
    then dispatch ttype t (record p { expected = none })
    else err parse_error

unfoldable pub parse_tokens : List Token → Parser → Result Error Parser
parse_tokens [] p = ok p
parse_tokens (token ∷ tokens) p = do p' ← token_step token p; parse_tokens tokens p'

-- `chunk[:n]` and `chunk[n:]`
abbrev pub take : ℕ → Text → Text
take zero s = []
take (suc n) [] = []
take (suc n) (c ∷ s) = c ∷ take n s

abbrev pub drop : ℕ → Text → Text
drop zero s = s
drop (suc n) [] = []
drop (suc n) (c ∷ s) = drop n s

-- the literal that the last chunk announced goes to the current item; of the three parsers only the
-- one of BODYSTRUCTURE is called for it
abbrev pub take_literal : Text → Parser → Result Error Parser
take_literal t p =
    if p.cur_data_item == codes "BODYSTRUCTURE"
    then elim p.args_parsing_func [
      | none ↦ err type_error
      | some parser ↦ call_args_parser parser literal t p
    ]
    else ok (record (set_item (text t) p) { args_parsing_func = none })

abbrev pub begin_chunk : Text → Parser → Result Error Parser
begin_chunk chunk p =
    if nat_eqb p.next_literal_len 0
    then ok p
    else take_literal (take p.next_literal_len chunk) (record p { next_literal_len = 0 })

-- the error of the lexer, after the tokens before it
abbrev pub unless_unknown : Bool → Parser → Result Error Parser
unless_unknown true p = ok p
unless_unknown false p = err parse_error

-- The tokens that the lexer finds, and whether it recognized the whole text
module _ (scan : Text → List Token × Bool) where
  -- `parse_chunk` of a chunk that is text
  unfoldable pub parse_chunk : Text → Parser → Result Error Parser
  parse_chunk [] p = ok p
  parse_chunk (c ∷ chunk) p = do
    p' ← begin_chunk (c ∷ chunk) p
    let (tokens, recognized) = scan (drop p.next_literal_len (c ∷ chunk))
    p'' ← parse_tokens tokens p'
    unless_unknown recognized p''

  unfoldable pub parse_chunks : List Text → Parser → Result Error Parser
  parse_chunks [] p = ok p
  parse_chunks (chunk ∷ chunks) p = do p' ← parse_chunk chunk p; parse_chunks chunks p'

  -- `parse`, over the chunks and the elements of the tuples among them
  unfoldable pub parse : List Text → Result Error (Dict ℕ Message)
  parse data' = do p ← parse_chunks data' reset; ok p.result
