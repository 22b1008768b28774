-- ===== src/DnsTools/Tags/Dkim/Pieces.antt =====
-- Quoted pieces, and what splitting and stripping make of them.
use mrt_post_office.Prelude.{
  ℕ, false, ◌||◌, ◌≡◌, refl, List, [], ◌∷◌, ◌++◌, Text, ◌==◌, ==_refl, nat_eq, text_eq, All, ap,
  sym, ◌∙◌, if_true, if_false,
}
use mrt_post_office.Prelude.Bools.{or_left, or_right}
use mrt_post_office.Prelude.Chars.{
  codes, split_char-absent, split_char-append, strip, lstrip, rstrip, close_strip, has_char,
}
use mrt_post_office.DnsTools.Tags.{join_unquoted, key_text}

abbrev pub quoted : Text → Text
quoted piece = b'"' ∷ piece ++ b'"' ∷ []

-- The pieces as they stand in a zone
abbrev pub quoted_pieces : Text → List Text → Text
quoted_pieces piece [] = quoted piece
quoted_pieces piece (next ∷ pieces) = quoted piece ++ b' ' ∷ quoted_pieces next pieces

abbrev pub joined : Text → List Text → Text
joined piece [] = piece
joined piece (next ∷ pieces) = piece ++ joined next pieces

-- No quote, no space and no semicolon
abbrev pub IsPlain : Text → Type 0
IsPlain piece =
    (has_char b'"' piece ≡ false) × (has_char b' ' piece ≡ false) × (has_char b';' piece ≡ false)

pub head_absent : (c x : ℕ) (s : Text) → has_char c (x ∷ s) ≡ false → (x == c) ≡ false
head_absent c x s h = or_left (x == c) (has_char c s) h

pub tail_absent : (c x : ℕ) (s : Text) → has_char c (x ∷ s) ≡ false → has_char c s ≡ false
tail_absent c x s h = or_right (x == c) (has_char c s) h

pub has_char-append :
    (c : ℕ) (s t : Text) → has_char c s ≡ false → has_char c t ≡ false → has_char c (s ++ t) ≡ false
has_char-append c [] t hs ht = ht
has_char-append c (x ∷ s) t hs ht =
    ap (λ b. b || has_char c (s ++ t)) (head_absent c x s hs)
    ∙ has_char-append c s t (tail_absent c x s hs) ht

rstrip-last : (c x : ℕ) (s : Text) → (x == c) ≡ false → rstrip c (s ++ x ∷ []) ≡ s ++ x ∷ []
rstrip-last c x [] ne = if_false [] ne
rstrip-last c x (y ∷ []) ne = ap (close_strip c y) (rstrip-last c x [] ne)
rstrip-last c x (y ∷ z ∷ s) ne = ap (close_strip c y) (rstrip-last c x (z ∷ s) ne)

-- at the end of a piece
rstrip_piece : (c : ℕ) (s : Text) → has_char c s ≡ false → rstrip c (s ++ c ∷ []) ≡ s
rstrip_piece c [] h = if_true (c ∷ []) (==_refl c)
rstrip_piece c (x ∷ []) h =
    ap (close_strip c x) (rstrip_piece c [] refl) ∙ if_false [] (head_absent c x [] h)
rstrip_piece c (x ∷ y ∷ s) h =
    ap (close_strip c x) (rstrip_piece c (y ∷ s) (tail_absent c x (y ∷ s) h))

pub lstrip_plain : (c x : ℕ) (s : Text) → (x == c) ≡ false → lstrip c (x ∷ s) ≡ x ∷ s
lstrip_plain c x s ne = if_false (lstrip c s) ne

strip-quoted : (piece : Text) → has_char b'"' piece ≡ false → strip b'"' (quoted piece) ≡ piece
strip-quoted [] h = refl
strip-quoted (x ∷ s) h =
    ap (rstrip b'"') (lstrip_plain b'"' x (s ++ b'"' ∷ []) (head_absent b'"' x s h))
    ∙ rstrip_piece b'"' (x ∷ s) h

quoted_absent :
    (c : ℕ) (piece : Text)
    → (b'"' == c) ≡ false
    → has_char c piece ≡ false
    → has_char c (quoted piece) ≡ false
quoted_absent c piece other absent =
    ap (λ b. b || has_char c (piece ++ b'"' ∷ [])) other
    ∙ has_char-append c piece (b'"' ∷ []) absent (ap (λ b. b || false) other)

append_nil : (s : Text) → s ++ [] ≡ s
append_nil [] = refl
append_nil (x ∷ s) = ap (λ t. x ∷ t) (append_nil s)

pub key_text-quoted_pieces :
    (piece : Text) (pieces : List Text)
    → IsPlain piece
    → All IsPlain pieces
    → key_text (quoted_pieces piece pieces) ≡ joined piece pieces
key_text-quoted_pieces piece [] (q, s, e) plain =
    ap join_unquoted (split_char-absent b' ' (quoted piece) (quoted_absent b' ' piece refl s))
    ∙ append_nil (strip b'"' (quoted piece))
    ∙ strip-quoted piece q
key_text-quoted_pieces piece (next ∷ pieces) (q, s, e) (here, rest) =
    ap join_unquoted (
      split_char-append b' ' (quoted piece) (quoted_pieces next pieces)
        (quoted_absent b' ' piece refl s))
    ∙ ap (λ t. t ++ key_text (quoted_pieces next pieces)) (strip-quoted piece q)
    ∙ ap (λ t. piece ++ t) (key_text-quoted_pieces next pieces here rest)

pub pieces_absent :
    (piece : Text) (pieces : List Text)
    → IsPlain piece
    → All IsPlain pieces
    → has_char b';' (quoted_pieces piece pieces) ≡ false
pieces_absent piece [] (q, s, e) plain = quoted_absent b';' piece refl e
pieces_absent piece (next ∷ pieces) (q, s, e) (here, rest) =
    has_char-append b';' (quoted piece) (b' ' ∷ quoted_pieces next pieces)
      (quoted_absent b';' piece refl e) (pieces_absent next pieces here rest)

-- what stands before the last quote
abbrev body : Text → List Text → Text
body piece [] = b'"' ∷ piece
body piece (next ∷ pieces) = quoted piece ++ b' ' ∷ body next pieces

assoc : (a b c : Text) → (a ++ b) ++ c ≡ a ++ (b ++ c)
assoc [] b c = refl
assoc (x ∷ a) b c = ap (λ t. x ∷ t) (assoc a b c)

body_last :
    (piece : Text) (pieces : List Text)
    → quoted_pieces piece pieces ≡ body piece pieces ++ b'"' ∷ []
body_last piece [] = refl
body_last piece (next ∷ pieces) =
    ap (λ t. quoted piece ++ b' ' ∷ t) (body_last next pieces)
    ∙ sym (assoc (quoted piece) (b' ' ∷ body next pieces) (b'"' ∷ []))

-- the tag, as it follows the semicolon
abbrev pub key_tag : Text → List Text → Text
key_tag piece pieces = codes "p=" ++ quoted_pieces piece pieces

pub strip-key_tag :
    (piece : Text) (pieces : List Text)
    → strip b' ' (b' ' ∷ key_tag piece pieces) ≡ key_tag piece pieces
strip-key_tag piece pieces =
    ap (λ t. rstrip b' ' (codes "p=" ++ t)) (body_last piece pieces)
    ∙ rstrip-last b' ' b'"' (codes "p=" ++ body piece pieces) refl
    ∙ ap (λ t. codes "p=" ++ t) (sym (body_last piece pieces))
