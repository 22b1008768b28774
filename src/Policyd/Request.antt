-- ===== src/Policyd/Request.antt =====
-- The request that `handle_connection` of modoboa/policyd/core.py reads: lines `name=value`.
pub mod RoundTrip
use mrt_post_office.Prelude.{
  ℕ, Option, none, some, List, [], ◌∷◌, Text, if◌then◌else◌, ◌==◌, nat_eq, text_eq,
}
use mrt_post_office.Prelude.Chars.{split_char}
use mrt_post_office.Prelude.Dict.{Dict, insert}

-- `name, value = line.split("=")`: a `ValueError` unless there are two parts
abbrev pub as_pair : List Text → Option (Text × Text)
as_pair (name ∷ value ∷ []) = some (name, value)
as_pair _ = none

-- one round of the loop: an empty line and a line that is no pair change nothing
unfoldable pub read_line : Text → Dict Text Text → Dict Text Text
unfolding split_char
read_line [] attributes = attributes
read_line (x ∷ line) attributes = elim (as_pair (split_char b'=' (x ∷ line))) [
  | none ↦ attributes
  | some (name, value) ↦ insert name value attributes
]

unfoldable pub read_lines : List Text → Dict Text Text → Dict Text Text
read_lines [] attributes = attributes
read_lines (line ∷ lines) attributes = read_lines lines (read_line line attributes)

unfoldable pub read_attributes : Text → Dict Text Text
unfolding split_char
read_attributes text = read_lines (split_char 10 text) []
