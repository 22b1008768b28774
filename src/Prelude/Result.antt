-- ===== src/Prelude/Result.antt =====
-- Calls that may raise: the value, or the exception.
use mathlib.Core.Path.{◌≡◌, refl, ap}
use mathlib.Core.Option.{Option, none, some}

pub data Result {ℓ κ} (E : Type κ) (A : Type ℓ) : Type (ℓ ⊔ κ) where
  ok : A → Result E A
  err : E → Result E A

abbrev pub or_raise {ℓ κ} : {E : Type κ} {A : Type ℓ} → Option A → E → Result E A
or_raise none e = err e
or_raise (some a) e = ok a

infixl 5 ◌>>=◌
-- the rest of the call, skipped by an exception
abbrev pub ◌>>=◌ {ℓ κ μ} :
    {E : Type κ} {A : Type ℓ} {B : Type μ} → Result E A → (A → Result E B) → Result E B
err e >>= rest = err e
ok a >>= rest = rest a

-- A call that went on had a value to go on with.
pub >>=-eq-ok {ℓ κ μ} :
    {E : Type κ} {A : Type ℓ} {B : Type μ} (m : Result E A) (rest : A → Result E B) {b : B}
    → (m >>= rest) ≡ ok b
    → (a : A) × (m ≡ ok a) × (rest a ≡ ok b)
>>=-eq-ok (err e) rest h = cc
>>=-eq-ok (ok a) rest h = (a, refl, h)

pub err-ok {ℓ κ μ} :
    {E : Type κ} {A : Type ℓ} {B : Type μ} {e : E} {a : A} → ◌≡◌ {A = Result E A} (err e) (ok a) → B
err-ok h = cc

pub ok_injective {ℓ κ} :
    {E : Type κ} {A : Type ℓ} {a b : A} → ◌≡◌ {A = Result E A} (ok a) (ok b) → a ≡ b
ok_injective h = cc

pub or_raise-ok {ℓ κ} :
    {E : Type κ} {A : Type ℓ} (o : Option A) (e : E) {a : A} → or_raise o e ≡ ok a → o ≡ some a
or_raise-ok none e h = err-ok h
or_raise-ok (some b) e h = ap some (ok_injective h)

-- A value that is there is passed on.
pub found_goes_on {ℓ κ μ} :
    {E : Type κ} {A : Type ℓ} {B : Type μ} (o : Option A) (e : E) (rest : A → Result E B) {a : A}
    {r : Result E B}
    → o ≡ some a
    → rest a ≡ r
    → (or_raise o e >>= rest) ≡ r
found_goes_on o e rest there h = cc

-- A call that returned is passed on.
pub ok_goes_on {ℓ κ μ} :
    {E : Type κ} {A : Type ℓ} {B : Type μ} (m : Result E A) (rest : A → Result E B) {a : A}
    {r : Result E B}
    → m ≡ ok a
    → rest a ≡ r
    → (m >>= rest) ≡ r
ok_goes_on m rest there h = cc
