-- ===== src/Prelude/Chars.antt =====
-- Text as code points, where the source walks it character by character: Python's `str` methods.
use Prim.Native.Nat.{ℕ, suc, zero, ◌+◌, ◌-◌, ◌*◌}
use Prim.Native.Char.{code}
use Prim.Native.String.{String}
use mathlib.Core.Path.{◌≡◌, refl}
use native.Mathlib.Omega.{arith}
use mathlib.Core.Bool.{Bool, true, false, ◌&&◌, ◌||◌}
use mathlib.Core.List.{List, [], ◌∷◌, ◌++◌, map}
use mrt_post_office.Prelude.Tests.{ltb, leb, length, any, if◌then◌else◌}
use mrt_post_office.Prelude.Equality.{Text, ◌==◌, nat_eq, ==_refl}

-- The code points of a literal.
abbrev pub codes : String → Text
codes String.[] = []
codes (String.◌∷◌ c s) = code c ∷ codes s

-- `str.lower` on an ASCII text
abbrev pub lower_char : ℕ → ℕ
lower_char c = if leb b'A' c && leb c b'Z' then c + 32 else c

unfoldable pub lower : Text → Text
lower s = map lower_char s

-- `s < t`, the order that `sorted` uses
unfoldable pub text_ltb : Text → Text → Bool
text_ltb s [] = false
text_ltb [] (d ∷ t) = true
text_ltb (c ∷ s) (d ∷ t) = ltb c d || (c == d && text_ltb s t)

-- the first part of `s.split(c)`, and the rest
abbrev pub cons_first : ℕ → List Text → List Text
cons_first x [] = (x ∷ []) ∷ []
cons_first x (part ∷ parts) = (x ∷ part) ∷ parts

-- `s.split(c)` for one character
unfoldable pub split_char : ℕ → Text → List Text
split_char c [] = [] ∷ []
split_char c (x ∷ s) = if x == c then [] ∷ split_char c s else cons_first x (split_char c s)

-- `s.replace(c, by)` for one character
abbrev pub replace : ℕ → Text → Text → Text
replace c by [] = []
replace c by (x ∷ s) = if x == c then by ++ replace c by s else x ∷ replace c by s

abbrev pub is_digit : ℕ → Bool
is_digit c = leb b'0' c && leb c b'9'

-- `int(s)` of decimal digits, from the value of those before
abbrev pub decimal : ℕ → Text → ℕ
decimal n [] = n
decimal n (d ∷ s) = decimal (n * 10 + (d - b'0')) s

-- `s.startswith(prefix)`
abbrev pub starts_with : Text → Text → Bool
starts_with [] s = true
starts_with (d ∷ ds) [] = false
starts_with (d ∷ ds) (x ∷ s) = x == d && starts_with ds s

-- `s.replace(old, "")`, with the number of characters still to leave out
abbrev pub remove : Text → ℕ → Text → Text
remove old left [] = []
remove old (suc left) (x ∷ s) = remove old left s
remove old zero (x ∷ s) =
    let found = remove old (length old - 1) s in
    let kept = remove old zero s in if starts_with old (x ∷ s) then found else x ∷ kept

-- `s.lstrip(c)`, `s.rstrip(c)` and `s.strip(c)` for one character
abbrev pub lstrip : ℕ → Text → Text
lstrip c [] = []
lstrip c (x ∷ s) = if x == c then lstrip c s else x ∷ s

abbrev pub close_strip : ℕ → ℕ → Text → Text
close_strip c x [] = if x == c then [] else x ∷ []
close_strip c x (y ∷ s) = x ∷ y ∷ s

abbrev pub rstrip : ℕ → Text → Text
rstrip c [] = []
rstrip c (x ∷ s) = close_strip c x (rstrip c s)

abbrev pub strip : ℕ → Text → Text
strip c s = rstrip c (lstrip c s)

-- `c in s`
abbrev pub has_char : ℕ → Text → Bool
has_char c s = any (λ x. x == c) s

pub split_char-absent : (c : ℕ) (s : Text) → has_char c s ≡ false → split_char c s ≡ s ∷ []
unfolding split_char
split_char-absent c [] h = refl
split_char-absent c (x ∷ s) h = ground (arith, split_char-absent c s)

pub split_char-append :
    (c : ℕ) (s t : Text) → has_char c s ≡ false → split_char c (s ++ c ∷ t) ≡ s ∷ split_char c t
unfolding split_char
split_char-append c [] t h = rw ==_refl
split_char-append c (x ∷ s) t h = ground (arith, split_char-append c s t)
