-- ===== src/Imap/Tests.antt =====
-- A folder name with "&" and a letter beyond ASCII.
use mrt_post_office.Prelude.{◌≡◌, refl, [], ◌∷◌, Text, inl, inr}
use mrt_post_office.Imap.Utf7.{encoder, decoder}
use mrt_post_office.Imap.Unary.{unary}
use mrt_post_office.Imap.RoundTrip.{decoder-encoder}

-- "a&é"
abbrev folder : Text
folder = 97 ∷ 38 ∷ 233 ∷ []

decoder-encoder_example : (decoder unary (encoder unary folder).0).0 ≡ folder
decoder-encoder_example =
    decoder-encoder unary folder (inl refl, (inr (inl refl), (inr (inr refl), tt)))
