-- ===== src/Fetch/Structure.antt =====
-- The values of a FETCH response, and BODYSTRUCTURE: `__bstruct_args_parser` and `__set_part_numbers`
-- of modoboa/webmail/lib/fetch_parser.py. A part number "1.2" is the list of its components.
use mrt_post_office.Prelude.{
  ℕ, suc, ◌+◌, ◌*◌, ◌-◌, Bool, true, false, ◌&&◌, Option, none, some, List, [], ◌∷◌, ◌++◌, Text,
  if◌then◌else◌, ◌==◌, nat_eq, leb,
}
use mrt_post_office.Prelude.Result.{Result, ok, err, ◌>>=◌, or_raise}

-- The pattern that recognized a token; a literal is what follows its marker
pub data TokenType : Type 0 where
  left_parenthesis right_parenthesis string nil data_item number literal_marker flag literal :
      TokenType

pub data Error : Type 0 where
  parse_error index_error value_error type_error assertion_error : Error

-- Python's values: texts, numbers, lists and the dictionaries of MIME parts, with the numbers that
-- they get
mutual
  pub data Value : Type 0 where
    text : Text → Value
    int : ℕ → Value
    list : Values → Value
    part : Values → Option (List ℕ) → Value

  pub data Values : Type 0 where
    nothing : Values
    item : Value → Values → Values

-- `l.append(v)`
abbrev pub append : Values → Value → Values
append nothing v = item v nothing
append (item w vs) v = item w (append vs v)

abbrev pub is_part : Value → Bool
is_part (part _ _) = true
is_part _ = false

abbrev pub is_list : Value → Bool
is_list (list _) = true
is_list _ = false

-- `isinstance(l[-1], dict)` of a list that is not empty
abbrev pub last_is_part : Values → Bool
last_is_part nothing = false
last_is_part (item v nothing) = is_part v
last_is_part (item v (item w vs)) = last_is_part (item w vs)

-- `int(...)` of a text of digits
abbrev pub add_digit : Option ℕ → ℕ → Option ℕ
add_digit none c = none
add_digit (some n) c = if leb b'0' c && leb c b'9' then some (n * 10 + (c - b'0')) else none

abbrev pub digits_from : Option ℕ → Text → Option ℕ
digits_from n [] = n
digits_from n (c ∷ s) = digits_from (add_digit n c) s

abbrev pub to_int : Text → Result Error ℕ
to_int [] = err value_error
to_int (c ∷ s) = or_raise (digits_from (some 0) (c ∷ s)) value_error

-- `s.strip('"')`
abbrev pub strip_left : Text → Text
strip_left [] = []
strip_left (c ∷ s) = if c == 34 then strip_left s else c ∷ s

abbrev pub cons_unless_end : ℕ → Text → Text
cons_unless_end c [] = if c == 34 then [] else c ∷ []
cons_unless_end c (d ∷ s) = c ∷ d ∷ s

abbrev pub strip_right : Text → Text
strip_right [] = []
strip_right (c ∷ s) = cons_unless_end c (strip_right s)

abbrev pub strip : Text → Text
strip s = strip_right (strip_left s)

-- What a closing parenthesis appends to the list below: a list of arguments, or a MIME part
abbrev pub close_list : Values → Values → Values
close_list top nothing = item (part top none) nothing
close_list top (item v vs) = append (item v vs) (if is_part v then part top none else list top)

-- `__set_part_numbers`, from the number of the next part
unfoldable pub set_part_numbers : List ℕ → ℕ → Values → Result Error Values
set_part_numbers prefix cpt nothing = ok nothing
set_part_numbers prefix cpt (item (text t) vs) = do
  rest ← set_part_numbers prefix cpt vs
  ok (item (text t) rest)
set_part_numbers prefix cpt (item (int n) vs) = do
  rest ← set_part_numbers prefix cpt vs
  ok (item (int n) rest)
set_part_numbers prefix cpt (item (list inner) vs) = do
  numbered ← set_part_numbers prefix 1 inner
  rest ← set_part_numbers prefix cpt vs
  ok (item (list numbered) rest)
set_part_numbers prefix cpt (item (part nothing partnum) vs) = err index_error
set_part_numbers prefix cpt (item (part (item (list inner) struct) partnum) vs) = do
  numbered ← set_part_numbers (prefix ++ cpt ∷ []) 1 inner
  rest ← set_part_numbers prefix (suc cpt) vs
  ok (item (part (item (list numbered) struct) (some (prefix ++ cpt ∷ []))) rest)
set_part_numbers prefix cpt (item (part (item v struct) partnum) vs) = do
  rest ← set_part_numbers prefix (suc cpt) vs
  ok (item (part (item v struct) (some (prefix ++ cpt ∷ []))) rest)

-- the end of BODYSTRUCTURE: the whole is a part unless its first element is a list
unfoldable pub end_structure : Values → Result Error Values
unfolding set_part_numbers
end_structure nothing = err index_error
end_structure (item v vs) =
    set_part_numbers [] 1
      (item (if is_list v then list (item v vs) else part (item v vs) none) nothing)

-- The stack after a token, or the finished structure
pub data Step : Type 0 where
  going : List Values → Step
  finished : Values → Step

abbrev pub append_top : List Values → Value → Result Error Step
append_top [] v = err index_error
append_top (top ∷ stack) v = ok (going (append top v ∷ stack))

-- a string after a part makes the list of parts the first element of a multipart
abbrev pub add_string : List Values → Text → Result Error Step
add_string [] t = err index_error
add_string (top ∷ stack) t =
    if last_is_part top
    then ok (going (item (list top) (item (text t) nothing) ∷ stack))
    else ok (going (append top (text t) ∷ stack))

abbrev pub close_structure : List Values → Result Error Step
close_structure [] = err index_error
close_structure (top ∷ []) = do structure ← end_structure top; ok (finished structure)
close_structure (top ∷ below ∷ stack) = ok (going (close_list top below ∷ stack))

-- `__bstruct_args_parser`
unfoldable pub bstruct_step : TokenType → Text → List Values → Result Error Step
unfolding end_structure
bstruct_step left_parenthesis t stack = ok (going (nothing ∷ stack))
bstruct_step right_parenthesis t stack = close_structure stack
bstruct_step string t stack = add_string stack (strip t)
bstruct_step number t stack = do n ← to_int t; append_top stack (int n)
bstruct_step ttype t stack = append_top stack (text t)
