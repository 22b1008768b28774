-- ===== src/Prelude/Bools.antt =====
-- Boolean tests taken apart.
use mathlib.Core.Path.{◌≡◌, refl, ap, ◌∙◌}
use mathlib.Core.Bool.{Bool, true, false, not, ◌&&◌, ◌||◌}

pub false-true {ℓ} : {A : Type ℓ} → false ≡ true → A
false-true h = cc

pub not-false : {b : Bool} → not b ≡ false → b ≡ true
not-false {b = true} h = refl
not-false {b = false} h = cc

pub or_left : (a b : Bool) → (a || b) ≡ false → a ≡ false
or_left true b h = h
or_left false b h = refl

pub or_right : (a b : Bool) → (a || b) ≡ false → b ≡ false
or_right true b h = cc
or_right false b h = h

pub or_true : (a : Bool) {b : Bool} → b ≡ true → (a || b) ≡ true
or_true true e = refl
or_true false e = e

pub or_false : (a : Bool) → (a || false) ≡ a
or_false true = refl
or_false false = refl

pub and_left : (a b : Bool) → (a && b) ≡ true → a ≡ true
and_left true b h = refl
and_left false b h = h

pub and_right : (a b : Bool) → (a && b) ≡ true → b ≡ true
and_right true b h = h
and_right false b h = cc

pub and_both : {a b : Bool} → a ≡ true → b ≡ true → (a && b) ≡ true
and_both {b = b} e f = ap (λ x. x && b) e ∙ f
