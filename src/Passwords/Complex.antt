-- ===== src/Passwords/Complex.antt =====
-- Which passwords are accepted, and that longer ones stay so.
use mrt_post_office.Prelude.{
  ℕ, ◌+◌, ◌≤◌, Bool, true, false, ◌&&◌, ◌≡◌, refl, ◌↔◌, [], ◌∷◌, ◌++◌, Text, filter, length, ltb,
  if◌then◌else◌, ⊤, arith, ◌∙◌, if_false,
}
use mrt_post_office.Prelude.Result.{Result, ok, err, err-ok}
use mrt_post_office.Passwords.{ComplexityValidator, ValidationError, Classes, is_special, validate}

-- at least so many characters of a class
abbrev pub HasEnough : ℕ → (ℕ → Bool) → Text → Type 0
HasEnough minimum p password = minimum ≤ length (filter p password)

-- enough of each class
abbrev pub IsComplex : Classes → ComplexityValidator → Text → Type 0
IsComplex s v password =
    HasEnough v.digits s.isdigit password
    × HasEnough v.lower s.islower password
    × HasEnough v.upper s.isupper password
    × HasEnough v.specials is_special password

enough_of : (minimum found : ℕ) → (ltb 0 minimum && ltb found minimum) ≡ false → minimum ≤ found
enough_of minimum found h = ground arith

lacks_not : (minimum found : ℕ) → minimum ≤ found → (ltb 0 minimum && ltb found minimum) ≡ false
lacks_not minimum found h = ground arith

guard_passed :
    (b : Bool) (e : ValidationError) (rest : Result ValidationError ⊤)
    → (if b then err e else rest) ≡ ok tt
    → (b ≡ false) × (rest ≡ ok tt)
guard_passed true e rest h = err-ok h
guard_passed false e rest h = (refl, h)

accepted-IsComplex :
    (s : Classes) (v : ComplexityValidator) (password : Text)
    → validate s v password ≡ ok tt
    → IsComplex s v password
unfolding validate
accepted-IsComplex s v password h =
    let (digits, h1) = guard_passed _ _ _ h in
    let (lower, h2) = guard_passed _ _ _ h1 in
    let (upper, h3) = guard_passed _ _ _ h2 in
    let (specials, _) = guard_passed _ _ _ h3 in
    (enough_of _ _ digits, enough_of _ _ lower, enough_of _ _ upper, enough_of _ _ specials)

IsComplex-accepted :
    (s : Classes) (v : ComplexityValidator) (password : Text)
    → IsComplex s v password
    → validate s v password ≡ ok tt
unfolding validate
IsComplex-accepted s v password (digits, lower, upper, specials) =
    if_false _ (lacks_not _ _ digits)
    ∙ if_false _ (lacks_not _ _ lower)
    ∙ if_false _ (lacks_not _ _ upper)
    ∙ if_false _ (lacks_not _ _ specials)

-- The validator accepts exactly the passwords that have at least as many digits, lower case and
-- upper case letters and special characters as it asks for.
pub validate-IsComplex :
    (s : Classes) (v : ComplexityValidator) (password : Text)
    → (validate s v password ≡ ok tt) ↔ IsComplex s v password
validate-IsComplex s v password = (accepted-IsComplex s v password, IsComplex-accepted s v password)

length-filter_append :
    (p : ℕ → Bool) (a b : Text)
    → length (filter p (a ++ b)) ≡ length (filter p a) + length (filter p b)
length-filter_append p [] b = omega arith
length-filter_append p (c ∷ a) b = ground (arith, length-filter_append p a b)

HasEnough-append :
    (minimum : ℕ) (p : ℕ → Bool) (a password b : Text)
    → HasEnough minimum p password
    → HasEnough minimum p (a ++ (password ++ b))
HasEnough-append minimum p a password b h =
    omega (arith, h, length-filter_append p a (password ++ b), length-filter_append p password b)

-- Text before and after an accepted password leaves it accepted.
pub validate-append :
    (s : Classes) (v : ComplexityValidator) (a password b : Text)
    → validate s v password ≡ ok tt
    → validate s v (a ++ (password ++ b)) ≡ ok tt
validate-append s v a password b h =
    let (digits, lower, upper, specials) = accepted-IsComplex s v password h in
    IsComplex-accepted s v (a ++ (password ++ b)) (
      HasEnough-append v.digits s.isdigit a password b digits,
      HasEnough-append v.lower s.islower a password b lower,
      HasEnough-append v.upper s.isupper a password b upper,
      HasEnough-append v.specials is_special a password b specials,
    )
