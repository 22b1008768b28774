-- ===== src/Imap/RoundTrip.antt =====
-- Folder names survive being encoded and decoded.
use mrt_post_office.Prelude.{
  ℕ, ◌≡◌, refl, ap, sym, ◌∙◌, ◌≢◌, true, false, [], ◌∷◌, ◌++◌, Text, arith, ◌==◌, nat_eq, All, inl,
  inr, ◌⊎◌,
}
use mrt_post_office.Imap.Utf7.{
  IsWide, is_base64, Codec, is_printable, drop_last, replace_char, modified_utf7, modified_unutf7,
  do_b64, encode_from, encoder, close_run, decode_from, decoder,
}

append_nil : (s : Text) → s ++ [] ≡ s
append_nil [] = refl
append_nil (c ∷ s) = ap (λ t. c ∷ t) (append_nil s)

append_assoc : (s t u : Text) → (s ++ t) ++ u ≡ s ++ (t ++ u)
append_assoc [] t u = refl
append_assoc (c ∷ s) t u = ap (λ v. c ∷ v) (append_assoc s t u)

pub drop_last-append : (s : Text) (c : ℕ) → drop_last (s ++ c ∷ []) ≡ s
drop_last-append [] c = refl
drop_last-append (d ∷ []) c = refl
drop_last-append (d ∷ e ∷ s) c = ap (λ t. d ∷ t) (drop_last-append (e ∷ s) c)

-- base64 has no comma: the replacement is undone
replace_char-undo :
    (s : Text)
    → All (λ c. is_base64 c ≡ true) s
    → replace_char b',' b'/' (replace_char b'/' b',' s) ≡ s
replace_char-undo [] h = refl
replace_char-undo (c ∷ s) (e, h) = ground (arith, replace_char-undo s h)

replace_char-some : (s : Text) → s ≢ [] → replace_char b'/' b',' s ≢ []
replace_char-some [] ne = λ e. ne e
replace_char-some (c ∷ s) ne = λ e. cc

All-append : (s : Text) (c : ℕ) → All IsWide s → IsWide c → All IsWide (s ++ c ∷ [])
All-append [] c h w = (w, tt)
All-append (d ∷ s) c (e, h) w = (e, All-append s c h w)

abbrev pub NoDash : Text → Type 0
NoDash s = All (λ c. (c == b'-') ≡ false) s

replace_char-NoDash :
    (s : Text) → All (λ c. is_base64 c ≡ true) s → NoDash (replace_char b'/' b',' s)
replace_char-NoDash [] h = tt
replace_char-NoDash (c ∷ s) (e, h) = (ground arith, replace_char-NoDash s h)

-- what is coded: printable ASCII, "&" among it, and everything beyond ASCII
abbrev pub IsCodable : ℕ → Type 0
IsCodable c = (is_printable c ≡ true) ⊎ ((c ≡ b'&') ⊎ IsWide c)

module _ (codec : Codec) where
  run_of : Text → Text
  run_of s = replace_char b'/' b',' (codec.base64 s)

  modified_utf7-eq : (s : Text) → All IsWide s → s ≢ [] → modified_utf7 codec s ≡ run_of s
  unfolding modified_utf7 run_of
  modified_utf7-eq s h ne = rw (codec.encode_wide s h ne, drop_last-append)

  modified_unutf7-run_of : (s : Text) → All IsWide s → s ≢ [] → modified_unutf7 codec (run_of s) ≡ s
  unfolding modified_unutf7 run_of
  modified_unutf7-run_of s h ne =
      ap (λ t. codec.decode (b'+' ∷ t ++ b'-' ∷ []))
        (replace_char-undo (codec.base64 s) (codec.base64_clean s h))
      ∙ ap codec.decode (sym (codec.encode_wide s h ne))
      ∙ codec.decode_encode s h ne

  decode_run :
      (run body s : Text)
      → NoDash body
      → decode_from codec (body ++ b'-' ∷ s) (b'&' ∷ run)
        ≡ close_run codec (run ++ body) ++ decode_from codec s []
  unfolding decode_from
  decode_run run [] s h =
      ap (λ r. close_run codec r ++ decode_from codec s []) (sym (append_nil run))
  decode_run run (c ∷ body) s (e, h) = rw e (
      decode_run (run ++ c ∷ []) body s h
      ∙ ap (λ r. close_run codec r ++ decode_from codec s []) (append_assoc run (c ∷ []) body))

  close_run-some : (run : Text) → run ≢ [] → close_run codec run ≡ modified_unutf7 codec run
  close_run-some [] ne = absurd (ne refl)
  close_run-some (c ∷ run) ne = refl

  run_of-some : (s : Text) → All IsWide s → s ≢ [] → run_of s ≢ []
  unfolding run_of
  run_of-some s h ne = replace_char-some (codec.base64 s) (codec.base64_some s h ne)

  run_of-NoDash : (s : Text) → All IsWide s → NoDash (run_of s)
  unfolding run_of
  run_of-NoDash s h = replace_char-NoDash (codec.base64 s) (codec.base64_clean s h)

  close_run-run_of : (s : Text) → All IsWide s → s ≢ [] → close_run codec (run_of s) ≡ s
  close_run-run_of s h ne =
      close_run-some (run_of s) (run_of-some s h ne) ∙ modified_unutf7-run_of s h ne

  decode_from-do_b64 :
      (pending s : Text)
      → All IsWide pending
      → decode_from codec (do_b64 codec pending ++ s) [] ≡ pending ++ decode_from codec s []
  unfolding do_b64 decode_from
  decode_from-do_b64 [] s h = refl
  decode_from-do_b64 (c ∷ pending) s h =
      let wide : Text = c ∷ pending in
      let some_left : wide ≢ [] = λ e. cc in
      ap (λ t. decode_from codec t (b'&' ∷ []))
        (append_assoc (modified_utf7 codec wide) (b'-' ∷ []) s
          ∙ ap (λ t. t ++ b'-' ∷ s) (modified_utf7-eq wide h some_left))
      ∙ decode_run [] (run_of wide) s (run_of-NoDash wide h)
      ∙ ap (λ t. t ++ decode_from codec s []) (close_run-run_of wide h some_left)

  decode_from-printable :
      (c : ℕ) (s : Text)
      → is_printable c ≡ true
      → decode_from codec (c ∷ s) [] ≡ c ∷ decode_from codec s []
  unfolding decode_from
  decode_from-printable c s h = ground arith

  decode_from-ampersand :
      (s : Text) → decode_from codec (b'&' ∷ b'-' ∷ s) [] ≡ b'&' ∷ decode_from codec s []
  unfolding decode_from
  decode_from-ampersand s = refl

  encode_from-printable :
      (c : ℕ) (s pending : Text)
      → is_printable c ≡ true
      → encode_from codec (c ∷ s) pending ≡ do_b64 codec pending ++ c ∷ encode_from codec s []
  unfolding encode_from
  encode_from-printable c s pending h = rw h

  encode_from-ampersand :
      (s pending : Text)
      → encode_from codec (b'&' ∷ s) pending
        ≡ do_b64 codec pending ++ b'&' ∷ b'-' ∷ encode_from codec s []
  unfolding encode_from
  encode_from-ampersand s pending = refl

  encode_from-wide :
      (c : ℕ) (s pending : Text)
      → IsWide c
      → encode_from codec (c ∷ s) pending ≡ encode_from codec s (pending ++ c ∷ [])
  unfolding encode_from
  encode_from-wide c s pending h = ground arith

  decode_from-encode_from :
      (s pending : Text)
      → All IsCodable s
      → All IsWide pending
      → decode_from codec (encode_from codec s pending) [] ≡ pending ++ s
  decode_from-encode_from [] pending h w =
      unfold encode_from decode_from in
      ap (λ t. decode_from codec t []) (sym (append_nil (do_b64 codec pending)))
      ∙ decode_from-do_b64 pending [] w
  decode_from-encode_from (c ∷ s) pending (inl printable, h) w =
      ap (λ t. decode_from codec t []) (encode_from-printable c s pending printable)
      ∙ decode_from-do_b64 pending (c ∷ encode_from codec s []) w
      ∙ ap (λ t. pending ++ t)
          (decode_from-printable c (encode_from codec s []) printable
            ∙ ap (λ t. c ∷ t) (decode_from-encode_from s [] h tt))
  decode_from-encode_from (c ∷ s) pending (inr (inl e), h) w =
      ap (λ d. decode_from codec (encode_from codec (d ∷ s) pending) []) e
      ∙ ap (λ t. decode_from codec t []) (encode_from-ampersand s pending)
      ∙ decode_from-do_b64 pending (b'&' ∷ b'-' ∷ encode_from codec s []) w
      ∙ ap (λ t. pending ++ t)
          (decode_from-ampersand (encode_from codec s [])
            ∙ ap (λ t. b'&' ∷ t) (decode_from-encode_from s [] h tt))
      ∙ ap (λ d. pending ++ d ∷ s) (sym e)
  decode_from-encode_from (c ∷ s) pending (inr (inr wide), h) w =
      ap (λ t. decode_from codec t []) (encode_from-wide c s pending wide)
      ∙ decode_from-encode_from s (pending ++ c ∷ []) h (All-append pending c w wide)
      ∙ append_assoc pending (c ∷ []) s

  -- A folder name of printable ASCII, "&" among it, and characters beyond ASCII is what decoding
  -- its encoding gives.
  pub decoder-encoder :
      (name : Text) → All IsCodable name → (decoder codec (encoder codec name).0).0 ≡ name
  unfolding decoder encoder
  decoder-encoder name h = decode_from-encode_from name [] h tt
