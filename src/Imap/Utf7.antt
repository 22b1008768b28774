-- ===== src/Imap/Utf7.antt =====
-- modoboa/lib/imap_utf7.py over Python's UTF-7 codec, which is an interface. Bytes and characters are
-- both code points.
use mrt_post_office.Prelude.{
  ℕ, ◌≡◌, ◌≢◌, Bool, true, not, ◌&&◌, ◌||◌, [], ◌∷◌, ◌++◌, map, Text, if◌then◌else◌, ◌==◌, nat_eq,
  leb, All, length,
}

-- a character that the codec cannot leave as it is: beyond ASCII
abbrev pub IsWide : ℕ → Type 0
IsWide c = leb 128 c ≡ true

-- what base64 has in UTF-7: letters, digits, plus and slash
abbrev pub is_base64 : ℕ → Bool
is_base64 c =
    leb b'A' c && leb c b'Z'
    || leb b'a' c && leb c b'z'
    || leb b'0' c && leb c b'9'
    || c == b'+'
    || c == b'/'

-- `s.encode("utf-7")` and `s.decode("utf-7")`. A text of characters beyond ASCII is written as one
-- run of base64 between "+" and "-", and reading it gives the text again.
pub record Codec : Type 0 where
  pub encode : Text → Text
  pub decode : Text → Text
  pub base64 : Text → Text
  pub encode_wide : (s : Text) → All IsWide s → s ≢ [] → encode s ≡ b'+' ∷ base64 s ++ b'-' ∷ []
  pub base64_clean : (s : Text) → All IsWide s → All (λ c. is_base64 c ≡ true) (base64 s)
  pub base64_some : (s : Text) → All IsWide s → s ≢ [] → base64 s ≢ []
  pub decode_encode : (s : Text) → All IsWide s → s ≢ [] → decode (encode s) ≡ s

-- PRINTABLE
abbrev pub is_printable : ℕ → Bool
is_printable c = leb 32 c && leb c 126 && not (c == b'&')

-- `s[1:]` and `s[:-1]`
abbrev pub tail : Text → Text
tail [] = []
tail (c ∷ s) = s

abbrev pub drop_last : Text → Text
drop_last [] = []
drop_last (c ∷ []) = []
drop_last (c ∷ d ∷ s) = c ∷ drop_last (d ∷ s)

-- `s.replace(b"/", b",")` and back
abbrev pub replace_char : ℕ → ℕ → Text → Text
replace_char a b s = map (λ c. if c == a then b else c) s

module _ (codec : Codec) where
  open codec use {encode, decode}

  unfoldable pub modified_utf7 : Text → Text
  modified_utf7 s = replace_char b'/' b',' (drop_last (tail (encode s)))

  unfoldable pub modified_unutf7 : Text → Text
  modified_unutf7 s = decode (b'+' ∷ replace_char b',' b'/' s ++ b'-' ∷ [])

  -- `doB64`: what it appends to the result
  unfoldable pub do_b64 : Text → Text
  do_b64 [] = []
  do_b64 (c ∷ pending) = b'&' ∷ modified_utf7 (c ∷ pending) ++ b'-' ∷ []

  -- the loop of `encoder`, from the characters that wait in `_in`
  unfoldable pub encode_from : Text → Text → Text
  encode_from [] pending = do_b64 pending
  encode_from (c ∷ s) pending =
      if is_printable c
      then do_b64 pending ++ c ∷ encode_from s []
      else if c == b'&'
      then do_b64 pending ++ b'&' ∷ b'-' ∷ encode_from s []
      else encode_from s (pending ++ c ∷ [])

  unfoldable pub encoder : Text → Text × ℕ
  encoder s = (encode_from s [], length s)

  -- a run that is closed: "&-" is the character itself
  abbrev pub close_run : Text → Text
  close_run [] = b'&' ∷ []
  close_run (c ∷ run) = modified_unutf7 (c ∷ run)

  -- the loop of `decoder`, from the bytes in `decoded`
  unfoldable pub decode_from : Text → Text → Text
  decode_from [] [] = []
  decode_from [] (a ∷ run) = modified_unutf7 run
  decode_from (c ∷ s) [] = if c == b'&' then decode_from s (b'&' ∷ []) else c ∷ decode_from s []
  decode_from (c ∷ s) (a ∷ run) =
      if c == b'-' then close_run run ++ decode_from s [] else decode_from s (a ∷ run ++ c ∷ [])

  unfoldable pub decoder : Text → Text × ℕ
  decoder s = (decode_from s [], length s)
