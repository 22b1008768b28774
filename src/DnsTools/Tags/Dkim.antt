-- ===== src/DnsTools/Tags/Dkim.antt =====
-- The key of a DKIM record that is published in quoted pieces.
pub mod Pieces
use mrt_post_office.Prelude.{
  ℕ, true, false, not, ◌||◌, ◌≡◌, refl, Option, none, some, List, [], ◌∷◌, ◌++◌, map, Text, ◌==◌,
  ==_refl, nat_eq, text_eq, All, ap, sym, ◌∙◌, if_true, if_false, if◌then◌else◌,
}
use mrt_post_office.Prelude.Bools.{or_left, or_right}
use mrt_post_office.Prelude.Chars.{
  codes, split_char, split_char-absent, split_char-append, strip, lstrip, rstrip, close_strip,
  has_char, starts_with,
}
use mrt_post_office.Prelude.Result.{Result, ok, ◌>>=◌, or_raise}
use mrt_post_office.EmailUtils.Split.{split_once}
use mrt_post_office.DnsTools.Records.{Error, dns_syntax_error}
use mrt_post_office.DnsTools.Spf.{tail}
use mrt_post_office.DnsTools.Tags.{key_text, key_of, dkim_tag, dkim_tags, check_dkim_syntax}
use mrt_post_office.DnsTools.Tags.Dkim.Pieces.{
  quoted_pieces, joined, IsPlain, key_tag, key_text-quoted_pieces, pieces_absent, strip-key_tag,
  head_absent, tail_absent, has_char-append, lstrip_plain,
}

-- A tag with another name: no equals sign, space or semicolon in the name, no semicolon in the value
abbrev pub IsOther : Text × Text → Type 0
IsOther (name, value) =
    (has_char b'=' name ≡ false)
    × (has_char b' ' name ≡ false)
    × (has_char b';' name ≡ false)
    × (has_char b';' value ≡ false)
    × ((name == codes "p") ≡ false)

-- as it stands after a semicolon
abbrev pub tag_text : Text × Text → Text
tag_text (name, value) = b' ' ∷ name ++ b'=' ∷ value

abbrev pub join_tags : Text → List Text → Text
join_tags first [] = first
join_tags first (next ∷ rest) = first ++ b';' ∷ join_tags next rest

-- A record with a key and other tags before and after it
abbrev pub dkim_record : List (Text × Text) → Text → List Text → List (Text × Text) → Text
dkim_record before piece pieces after =
    join_tags (codes "v=DKIM1")
      (map tag_text before ++ (b' ' ∷ key_tag piece pieces) ∷ map tag_text after)

split_char-join_tags :
    (first : Text) (rest : List Text)
    → has_char b';' first ≡ false
    → All (λ t. has_char b';' t ≡ false) rest
    → split_char b';' (join_tags first rest) ≡ first ∷ rest
split_char-join_tags first [] h hs = split_char-absent b';' first h
split_char-join_tags first (next ∷ rest) h (here, hs) =
    split_char-append b';' first (join_tags next rest) h
    ∙ ap (λ ts. first ∷ ts) (split_char-join_tags next rest here hs)

tag_absent : (tag : Text × Text) → IsOther tag → has_char b';' (tag_text tag) ≡ false
tag_absent (name, value) (e, s, n, v, p) = has_char-append b';' name (b'=' ∷ value) n v

other_tags_absent :
    (tags : List (Text × Text))
    → All IsOther tags
    → All (λ t. has_char b';' t ≡ false) (map tag_text tags)
other_tags_absent [] others = tt
other_tags_absent (tag ∷ tags) (here, others) = (tag_absent tag here, other_tags_absent tags others)

tags_absent :
    (tags : List (Text × Text)) (rest : List Text)
    → All IsOther tags
    → All (λ t. has_char b';' t ≡ false) rest
    → All (λ t. has_char b';' t ≡ false) (map tag_text tags ++ rest)
tags_absent [] rest others hs = hs
tags_absent (tag ∷ tags) rest (here, others) hs =
    (tag_absent tag here, tags_absent tags rest others hs)

-- What stands before a character that stays is kept.
close_strip-keeps : (c x : ℕ) (t : Text) → (x == c) ≡ false → close_strip c x t ≡ x ∷ t
close_strip-keeps c x [] ne = if_false [] ne
close_strip-keeps c x (y ∷ t) ne = refl

rstrip-keeps :
    (c x : ℕ) (s t : Text) → (x == c) ≡ false → rstrip c (s ++ x ∷ t) ≡ s ++ x ∷ rstrip c t
rstrip-keeps c x [] t ne = close_strip-keeps c x (rstrip c t) ne
rstrip-keeps c x (y ∷ []) t ne = ap (close_strip c y) (rstrip-keeps c x [] t ne)
rstrip-keeps c x (y ∷ z ∷ s) t ne = ap (close_strip c y) (rstrip-keeps c x (z ∷ s) t ne)

rstrip-absent : (c : ℕ) (s : Text) → has_char c s ≡ false → rstrip c s ≡ s
rstrip-absent c [] h = refl
rstrip-absent c (x ∷ s) h =
    ap (close_strip c x) (rstrip-absent c s (tail_absent c x s h))
    ∙ close_strip-keeps c x s (head_absent c x s h)

strip-absent : (c : ℕ) (s : Text) → has_char c s ≡ false → strip c s ≡ s
strip-absent c [] h = refl
strip-absent c (x ∷ s) h =
    ap (rstrip c) (lstrip_plain c x s (head_absent c x s h)) ∙ rstrip-absent c (x ∷ s) h

lstrip-name :
    (name value : Text)
    → has_char b' ' name ≡ false
    → lstrip b' ' (name ++ b'=' ∷ value) ≡ name ++ b'=' ∷ value
lstrip-name [] value h = refl
lstrip-name (x ∷ name) value h =
    lstrip_plain b' ' x (name ++ b'=' ∷ value) (head_absent b' ' x name h)

split_once-name :
    (name value : Text)
    → has_char b'=' name ≡ false
    → split_once (b'=' ∷ []) (name ++ b'=' ∷ value) ≡ some (name, value)
split_once-name [] value h = refl
split_once-name (x ∷ name) value h =
    rw (head_absent b'=' x name h, split_once-name name value (tail_absent b'=' x name h)) refl

dkim_tag-name :
    (name value : Text) (key : Option Text)
    → dkim_tag (name ++ b'=' ∷ value) key
      ≡ key_of (split_once (b'=' ∷ []) (name ++ b'=' ∷ value)) key
dkim_tag-name [] value key = refl
dkim_tag-name (x ∷ name) value key = refl

-- Another tag leaves the key.
dkim_tag-other :
    (tag : Text × Text) (key : Option Text)
    → IsOther tag
    → dkim_tag (strip b' ' (tag_text tag)) key ≡ ok key
dkim_tag-other (name, value) key (e, s, n, v, p) =
    ap (λ t. dkim_tag (rstrip b' ' t) key) (lstrip-name name value s)
    ∙ ap (λ t. dkim_tag t key) (rstrip-keeps b' ' b'=' name value refl)
    ∙ dkim_tag-name name (rstrip b' ' value) key
    ∙ ap (λ o. key_of o key) (split_once-name name (rstrip b' ' value) e)
    ∙ if_false _ (ap (λ n. n == codes "p") (strip-absent b' ' name s) ∙ p)

dkim_tags-others :
    (tags : List (Text × Text)) (rest : List Text) (key : Option Text)
    → All IsOther tags
    → dkim_tags (map tag_text tags ++ rest) key ≡ dkim_tags rest key
dkim_tags-others [] rest key others = refl
dkim_tags-others (tag ∷ tags) rest key (here, others) =
    ap (λ r. r >>= (λ after. dkim_tags (map tag_text tags ++ rest) after))
      (dkim_tag-other tag key here)
    ∙ dkim_tags-others tags rest key others

dkim_tags-last :
    (tags : List (Text × Text)) (key : Option Text)
    → All IsOther tags
    → dkim_tags (map tag_text tags) key ≡ ok key
dkim_tags-last [] key others = refl
dkim_tags-last (tag ∷ tags) key (here, others) =
    ap (λ r. r >>= (λ after. dkim_tags (map tag_text tags) after)) (dkim_tag-other tag key here)
    ∙ dkim_tags-last tags key others

join_tags_start :
    (rest : List Text) → starts_with (codes "v=DKIM1") (join_tags (codes "v=DKIM1") rest) ≡ true
join_tags_start [] = refl
join_tags_start (next ∷ rest) = refl

-- The key of a DKIM record is its quoted pieces joined, where none of them has a quote, a space
-- or a semicolon, whatever tags of other names stand before and after the key: names without an
-- equals sign, a space or a semicolon, and values without a semicolon.
pub check_dkim_syntax-dkim_record :
    (before after : List (Text × Text)) (piece : Text) (pieces : List Text)
    → All IsOther before
    → All IsOther after
    → IsPlain piece
    → All IsPlain pieces
    → check_dkim_syntax (dkim_record before piece pieces after) ≡ ok (joined piece pieces)
unfolding check_dkim_syntax
check_dkim_syntax-dkim_record before after piece pieces others more here rest =
    let tag = b' ' ∷ key_tag piece pieces in
    let tags = map tag_text before ++ tag ∷ map tag_text after in
    let absent =
      tags_absent before (tag ∷ map tag_text after) others
        (pieces_absent piece pieces here rest, other_tags_absent after more) in
    if_false _ (ap not (join_tags_start tags))
    ∙ ap (λ ts. dkim_tags (tail ts) none >>= (λ key. or_raise key dns_syntax_error))
        (split_char-join_tags (codes "v=DKIM1") tags refl absent)
    ∙ ap (λ r. r >>= (λ key. or_raise key dns_syntax_error))
        (dkim_tags-others before (tag ∷ map tag_text after) none others
          ∙ ap (λ t. dkim_tag t none >>= (λ key. dkim_tags (map tag_text after) key))
              (strip-key_tag piece pieces)
          ∙ dkim_tags-last after (some (key_text (quoted_pieces piece pieces))) more)
    ∙ ap ok (key_text-quoted_pieces piece pieces here rest)
