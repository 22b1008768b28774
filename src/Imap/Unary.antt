-- ===== src/Imap/Unary.antt =====
-- An instance of the codec interface for the examples: a character is written as that many "A" and
-- a "B".
use mrt_post_office.Prelude.{
  ℕ, zero, suc, ◌+◌, ◌≡◌, refl, ap, ◌∙◌, ◌≢◌, true, [], ◌∷◌, ◌++◌, Text, arith, if◌then◌else◌, ◌==◌,
  nat_eq, All,
}
use mrt_post_office.Imap.Utf7.{is_base64, Codec, tail, drop_last}
use mrt_post_office.Imap.RoundTrip.{drop_last-append}

abbrev pub ticks : ℕ → Text → Text
ticks zero rest = b'B' ∷ rest
ticks (suc n) rest = b'A' ∷ ticks n rest

abbrev pub write : Text → Text
write [] = []
write (c ∷ s) = ticks c (write s)

abbrev pub read : ℕ → Text → Text
read n [] = []
read n (c ∷ s) = if c == b'A' then read (suc n) s else n ∷ read 0 s

read-ticks : (n m : ℕ) (rest : Text) → read m (ticks n rest) ≡ (m + n) ∷ read 0 rest
read-ticks zero m rest = ap (λ k. k ∷ read 0 rest) (omega arith)
read-ticks (suc n) m rest = read-ticks n (suc m) rest ∙ ap (λ k. k ∷ read 0 rest) (omega arith)

pub read-write : (s : Text) → read 0 (write s) ≡ s
read-write [] = refl
read-write (c ∷ s) =
    read-ticks c 0 (write s) ∙ ap (λ t. (0 + c) ∷ t) (read-write s) ∙ ap (λ n. n ∷ s) (omega arith)

ticks_clean :
    (n : ℕ) (rest : Text)
    → All (λ c. is_base64 c ≡ true) rest
    → All (λ c. is_base64 c ≡ true) (ticks n rest)
ticks_clean zero rest h = (refl, h)
ticks_clean (suc n) rest h = (refl, ticks_clean n rest h)

pub write_clean : (s : Text) → All (λ c. is_base64 c ≡ true) (write s)
write_clean [] = tt
write_clean (c ∷ s) = ticks_clean c (write s) (write_clean s)

ticks_some : (n : ℕ) (rest : Text) → ticks n rest ≢ []
ticks_some zero rest e = cc
ticks_some (suc n) rest e = cc

pub write_some : (s : Text) → s ≢ [] → write s ≢ []
write_some [] ne = ne
write_some (c ∷ s) ne = ticks_some c (write s)

abbrev pub unary : Codec
unary = record {
  encode = λ s. b'+' ∷ write s ++ b'-' ∷ [];
  decode = λ s. read 0 (drop_last (tail s));
  base64 = write;
  encode_wide = λ s h ne. refl;
  base64_clean = λ s h. write_clean s;
  base64_some = λ s h ne. write_some s ne;
  decode_encode = λ s h ne. ap (read 0) (drop_last-append (write s) b'-') ∙ read-write s;
}
