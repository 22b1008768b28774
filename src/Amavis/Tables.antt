-- ===== src/Amavis/Tables.antt =====
-- The tables `policy` and `users` of modoboa/amavis/models.py, with the columns that are used.
use mrt_post_office.Prelude.{
  ℕ, zero, suc, not, Option, none, some, List, [], ◌∷◌, map, Text, if◌then◌else◌, ◌==◌, nat_eq,
  text_eq, filter,
}
use mrt_post_office.Prelude.Result.{Result, ok, err}

-- `policy_name` has 32 characters at the most.
pub record Policy : Type 0 where
  pub pk : ℕ
  pub policy_name : Text
  pub sa_username : Option Text

-- `email` is unique; `policy` is the key of a policy.
pub record UserRow : Type 0 where
  pub email : Text
  pub fullname : Text
  pub priority : ℕ
  pub policy : ℕ

pub record Tables : Type 0 where
  pub policies : List Policy
  pub users : List UserRow
  pub next_pk : ℕ

pub data Error : Type 0 where
  does_not_exist multiple_objects_returned integrity_error : Error

-- An exception with what is stored when it is raised.
abbrev pub Outcome : Type 0 → Type 0
Outcome A = Result (Error × Tables) A

-- `s[:n]`
abbrev pub take : ℕ → Text → Text
take zero s = []
take (suc n) [] = []
take (suc n) (c ∷ s) = c ∷ take n s

-- `Users.objects.filter(email=email)`, of which there is one at the most
abbrev pub find_user : Text → List UserRow → Option UserRow
find_user email [] = none
find_user email (u ∷ users) = if u.email == email then some u else find_user email users

abbrev pub find_policies : Text → List Policy → List Policy
find_policies name policies = filter (λ p. p.policy_name == name) policies

-- `get(...)` on the rows that match
abbrev pub get : {A : Type 0} → List A → Tables → Outcome A
get [] t = err (does_not_exist, t)
get (a ∷ []) t = ok a
get (a ∷ b ∷ more) t = err (multiple_objects_returned, t)

abbrev pub new_policy : ℕ → Text → Policy
new_policy pk name = record { pk = pk; policy_name = name; sa_username = none }

-- `policy.save()`
abbrev pub save_policy : ℕ → (Policy → Policy) → List Policy → List Policy
save_policy pk change policies = map (λ p. if p.pk == pk then change p else p) policies

-- `Policy.delete()`: the users of the policy go with it.
unfoldable pub delete_policy : ℕ → Tables → Tables
delete_policy pk t = record t {
  policies = filter (λ p. not (p.pk == pk)) t.policies;
  users = filter (λ u. not (u.policy == pk)) t.users;
}
