-- ===== src/Amavis/Linked/Rows.antt =====
-- Links from users to policies under changes of the rows.
use mrt_post_office.Prelude.{
  ℕ, Bool, true, false, not, ◌||◌, ◌≡◌, refl, List, [], ◌∷◌, ◌++◌, map, Text, ◌==◌, ==_refl, nat_eq,
  text_eq, filter, any, All, arith, Bool-cases, inl, inr, ap, sym, ◌∙◌, subst, if_true, if_false,
}
use mrt_post_office.Prelude.Bools.{or_true}
use mrt_post_office.Amavis.Tables.{
  Policy, UserRow, Tables, find_policies, save_policy, delete_policy,
}

abbrev pub has_pk : ℕ → List Policy → Bool
has_pk pk policies = any (λ p. p.pk == pk) policies

abbrev pub Linked : List Policy → List UserRow → Type 0
Linked policies users = All (λ u. has_pk u.policy policies ≡ true) users

abbrev pub IsLinked : Tables → Type 0
IsLinked t = Linked t.policies t.users

pub Linked-mono :
    (ps qs : List Policy) (users : List UserRow)
    → ((pk : ℕ) → has_pk pk ps ≡ true → has_pk pk qs ≡ true)
    → Linked ps users
    → Linked qs users
Linked-mono ps qs [] more linked = tt
Linked-mono ps qs (u ∷ users) more (here, rest) =
    (more u.policy here, Linked-mono ps qs users more rest)

has_pk_append :
    (pk : ℕ) (ps : List Policy) (p : Policy) → has_pk pk ps ≡ true → has_pk pk (ps ++ p ∷ []) ≡ true
has_pk_append pk [] p h = cc
has_pk_append pk (q ∷ ps) p h = ground (arith, has_pk_append pk ps p)

pub has_pk_last : (ps : List Policy) (p : Policy) → has_pk p.pk (ps ++ p ∷ []) ≡ true
has_pk_last [] p = ground arith
has_pk_last (q ∷ ps) p = ground (arith, has_pk_last ps p)

pub Linked-grow :
    (ps : List Policy) (p : Policy) (users : List UserRow)
    → Linked ps users
    → Linked (ps ++ p ∷ []) users
Linked-grow ps p users = Linked-mono ps (ps ++ p ∷ []) users (λ pk. has_pk_append pk ps p)

pub has_pk-save_policy :
    (pk other : ℕ) (change : Policy → Policy) (ps : List Policy)
    → ((p : Policy) → (change p).pk ≡ p.pk)
    → has_pk pk (save_policy other change ps) ≡ has_pk pk ps
has_pk-save_policy pk other change [] keeps = refl
has_pk-save_policy pk other change (p ∷ ps) keeps =
    ground (arith, has_pk-save_policy pk other change ps keeps, keeps p)

pub Linked-save_policy :
    (other : ℕ) (change : Policy → Policy) (ps : List Policy) (users : List UserRow)
    → ((p : Policy) → (change p).pk ≡ p.pk)
    → Linked ps users
    → Linked (save_policy other change ps) users
Linked-save_policy other change ps users keeps =
    Linked-mono ps (save_policy other change ps) users
      (λ pk h. has_pk-save_policy pk other change ps keeps ∙ h)

pub Linked-add :
    (ps : List Policy) (users : List UserRow) (u : UserRow)
    → Linked ps users
    → has_pk u.policy ps ≡ true
    → Linked ps (users ++ u ∷ [])
Linked-add ps [] u linked here = (here, tt)
Linked-add ps (v ∷ users) u (first, rest) here = (first, Linked-add ps users u rest here)

pub Linked-filter :
    (ps : List Policy) (keep : UserRow → Bool) (users : List UserRow)
    → Linked ps users
    → Linked ps (filter keep users)
Linked-filter ps keep [] linked = tt
Linked-filter ps keep (u ∷ users) (here, rest) = elim (Bool-cases (keep u)) [
  | inl e ↦ subst (Linked ps) (sym (if_true _ e)) (here, Linked-filter ps keep users rest)
  | inr e ↦ subst (Linked ps) (sym (if_false _ e)) (Linked-filter ps keep users rest)
]

pub Linked-map :
    (ps : List Policy) (f : UserRow → UserRow) (users : List UserRow)
    → ((u : UserRow) → has_pk u.policy ps ≡ true → has_pk (f u).policy ps ≡ true)
    → Linked ps users
    → Linked ps (map f users)
Linked-map ps f [] keeps linked = tt
Linked-map ps f (u ∷ users) keeps (here, rest) = (keeps u here, Linked-map ps f users keeps rest)

has_pk_other :
    (pk other : ℕ) (ps : List Policy)
    → (pk == other) ≡ false
    → has_pk pk (filter (λ p. not (p.pk == other)) ps) ≡ has_pk pk ps
has_pk_other pk other [] ne = refl
has_pk_other pk other (p ∷ ps) ne = ground (arith, has_pk_other pk other ps ne)

Linked-others :
    (pk : ℕ) (ps : List Policy) (users : List UserRow)
    → Linked ps users
    → Linked (filter (λ p. not (p.pk == pk)) ps) (filter (λ u. not (u.policy == pk)) users)
Linked-others pk ps [] linked = tt
Linked-others pk ps (u ∷ users) (here, rest) = elim (Bool-cases (u.policy == pk)) [
  | inl e ↦
      subst (Linked (filter (λ p. not (p.pk == pk)) ps)) (sym (if_false _ (ap not e)))
        (Linked-others pk ps users rest)
  | inr e ↦
      subst (Linked (filter (λ p. not (p.pk == pk)) ps)) (sym (if_true _ (ap not e)))
        (has_pk_other u.policy pk ps e ∙ here, Linked-others pk ps users rest)
]

pub delete_policy-IsLinked : (pk : ℕ) (t : Tables) → IsLinked t → IsLinked (delete_policy pk t)
unfolding delete_policy
delete_policy-IsLinked pk t linked = Linked-others pk t.policies t.users linked

-- A policy that is found by its name is in the table.
pub found_has_pk :
    (name : Text) (ps : List Policy) (p : Policy) (more : List Policy)
    → find_policies name ps ≡ p ∷ more
    → has_pk p.pk ps ≡ true
found_has_pk name [] p more found = cc
found_has_pk name (q ∷ ps) p more found = elim (Bool-cases (q.policy_name == name)) [
  | inl e ↦
      let heads : q ∷ find_policies name ps ≡ p ∷ more = sym (if_true _ e) ∙ found in
      let same : q ≡ p = cc in
      ap (λ b. b || has_pk p.pk ps) (ap (λ x. x.pk == p.pk) same ∙ ==_refl p.pk)
  | inr e ↦ or_true (q.pk == p.pk) (found_has_pk name ps p more (sym (if_false _ e) ∙ found))
]
