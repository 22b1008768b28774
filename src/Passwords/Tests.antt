-- ===== src/Passwords/Tests.antt =====
-- Passwords on concrete input.
use mrt_post_office.Prelude.{ℕ, Bool, ◌&&◌, ◌≡◌, refl, ◌↔◌, ltb}
use mrt_post_office.Prelude.Chars.{codes}
use mrt_post_office.Prelude.Result.{ok, err}
use mrt_post_office.Passwords.{ComplexityValidator, few_specials, Classes, validate}
use mrt_post_office.Passwords.Complex.{IsComplex, validate-IsComplex}

abbrev between : ℕ → ℕ → ℕ → Bool
between a b c = ltb a c && ltb c b

abbrev ascii : Classes
ascii = record { isdigit = between 47 58; islower = between 96 123; isupper = between 64 91 }

abbrev defaults : ComplexityValidator
defaults = record { upper = 1; lower = 1; digits = 1; specials = 1 }

plain_refused : validate ascii defaults (codes "Secret99") ≡ err (few_specials 1)
unfolding validate
plain_refused = refl

validate-IsComplex_example :
    (validate ascii defaults (codes "Secret99!") ≡ ok tt)
    ↔ IsComplex ascii defaults (codes "Secret99!")
validate-IsComplex_example = validate-IsComplex ascii defaults (codes "Secret99!")
