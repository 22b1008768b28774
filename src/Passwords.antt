-- ===== src/Passwords.antt =====
-- ComplexityValidator: modoboa/core/password_validation.py. The classes of characters, those of
-- Unicode, are arguments.
use mrt_post_office.Prelude.{
  ℕ, Bool, ◌&&◌, Text, filter, length, ltb, if◌then◌else◌, ◌==◌, nat_eq, any, ⊤,
}
use mrt_post_office.Prelude.Chars.{codes}
use mrt_post_office.Prelude.Result.{Result, ok, err}
pub mod Complex
mod Tests

pub record ComplexityValidator : Type 0 where
  pub upper : ℕ
  pub lower : ℕ
  pub digits : ℕ
  pub specials : ℕ

pub data ValidationError : Type 0 where
  few_digits few_lowercase few_uppercase few_specials : ℕ → ValidationError

-- `str.isdigit`, `str.islower` and `str.isupper` of one character
pub record Classes : Type 0 where
  pub isdigit : ℕ → Bool
  pub islower : ℕ → Bool
  pub isupper : ℕ → Bool

abbrev pub special_characters : Text
special_characters = codes "~!@#$%^&*()_+{}\":;,'[]"

abbrev pub is_special : ℕ → Bool
is_special char = any (λ c. c == char) special_characters

-- `minimum > 0 and sum(1 for char in password if p(char)) < minimum`
abbrev pub lacks : ℕ → (ℕ → Bool) → Text → Bool
lacks minimum p password = ltb 0 minimum && ltb (length (filter p password)) minimum

unfoldable pub validate : Classes → ComplexityValidator → Text → Result ValidationError ⊤
validate s v password =
    if lacks v.digits s.isdigit password
    then err (few_digits v.digits)
    else if lacks v.lower s.islower password
    then err (few_lowercase v.lower)
    else if lacks v.upper s.isupper password
    then err (few_uppercase v.upper)
    else if lacks v.specials is_special password
    then err (few_specials v.specials)
    else ok tt
