-- ===== src/Policyd/Request/RoundTrip.antt =====
-- Reading back the attributes that a client writes, one `name=value` on a line, closed by an empty
-- line.
use mrt_post_office.Prelude.{
  ◌≡◌, refl, ap, ◌∙◌, false, List, [], ◌∷◌, ◌++◌, Text, nat_eq, text_eq, All,
}
use mrt_post_office.Prelude.Dict.{Dict, insert, update}
use mrt_post_office.Prelude.Chars.{has_char, split_char, split_char-absent, split_char-append}
use mrt_post_office.Policyd.Request.{read_line, read_lines, read_attributes}

abbrev pub line_of : Text × Text → Text
line_of (name, value) = name ++ b'=' ∷ value

-- what a client sends for these attributes
abbrev pub format : List (Text × Text) → Text
format [] = 10 ∷ []
format (attribute ∷ attributes) = line_of attribute ++ 10 ∷ format attributes

-- no name and no value has an equals sign or ends a line
abbrev pub IsClean : Text × Text → Type 0
IsClean (name, value) =
    (has_char b'=' name ≡ false)
    × (has_char b'=' value ≡ false)
    × (has_char 10 (line_of (name, value)) ≡ false)

read_line-pair :
    (line name value : Text) (attributes : Dict Text Text)
    → split_char b'=' line ≡ name ∷ value ∷ []
    → read_line line attributes ≡ insert name value attributes
unfolding read_line
read_line-pair [] name value attributes e = cc
read_line-pair (x ∷ line) name value attributes e = rw (e, read_line)

read_line-line_of :
    (name value : Text) (attributes : Dict Text Text)
    → has_char b'=' name ≡ false
    → has_char b'=' value ≡ false
    → read_line (line_of (name, value)) attributes ≡ insert name value attributes
read_line-line_of name value attributes e f =
    read_line-pair (line_of (name, value)) name value attributes
      (split_char-append b'=' name value e ∙ ap (λ l. name ∷ l) (split_char-absent b'=' value f))

read_lines-format :
    (attributes : List (Text × Text)) (read : Dict Text Text)
    → All IsClean attributes
    → read_lines (split_char 10 (format attributes)) read ≡ update read attributes
unfolding read_lines
read_lines-format [] read h = unfold split_char read_line in refl
read_lines-format ((name, value) ∷ attributes) read (h, hs) =
    ap (λ lines. read_lines lines read)
      (split_char-append 10 (line_of (name, value)) (format attributes) h.2)
    ∙ ap (read_lines (split_char 10 (format attributes)))
        (read_line-line_of name value read h.0 h.1)
    ∙ read_lines-format attributes (insert name value read) hs

-- The attributes of a request with no equals sign or line end in a name or a value are read back
-- as they were written, the last value of a name winning.
pub read_attributes-format :
    (attributes : List (Text × Text))
    → All IsClean attributes
    → read_attributes (format attributes) ≡ update [] attributes
unfolding read_attributes
read_attributes-format attributes h = read_lines-format attributes [] h
