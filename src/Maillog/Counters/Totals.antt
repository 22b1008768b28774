-- ===== src/Maillog/Counters/Totals.antt =====
-- What the counters hold after the calls of a run.
use mrt_post_office.Prelude.{
  ℕ, ◌+◌, Bool, true, false, ◌≡◌, refl, Option, none, some, List, [], ◌∷◌, Text, ◌==◌, ==_iff,
  ==_refl, arith, inl, inr, ap, sym, ◌∙◌, if_true, if_false, Bool-cases, if◌then◌else◌, text_eq,
  nat_eq,
}
use mrt_post_office.Prelude.Bools.{false-true}
use mrt_post_office.Prelude.Result.{Result, ok, ◌>>=◌, ok_goes_on}
use mrt_post_office.Maillog.Counters.{Data, Error, global_name, is_domain, inc_counter}
use mrt_post_office.Maillog.Counters.Ready.{AreReady, is_known, inc_counter-AreReady}
use mrt_post_office.Maillog.Counters.Tally.{count, adds, call_adds, inc_counter-count}

-- A call of inc_counter, with the period of the log line
pub record Call : Type 0 where
  pub cur_t : ℕ
  pub dom : Option Text
  pub counter : Text
  pub val : ℕ

-- the calls of a run, in turn
abbrev pub inc_counters : List Text → List Text → List Call → Data → Result Error Data
inc_counters domains variables [] data' = ok data'
inc_counters domains variables (c ∷ calls) data' =
    inc_counter domains variables c.cur_t c.dom c.counter c.val data'
    >>= (λ after. inc_counters domains variables calls after)

abbrev pub AllKnown : List Text → List Call → Type 0
AllKnown variables [] = Unit
AllKnown variables (c ∷ calls) = (is_known variables c.counter ≡ true) × AllKnown variables calls

abbrev pub amount : ℕ → Text → Call → ℕ
amount t counter c = if c.cur_t == t then (if c.counter == counter then c.val else 0) else 0

abbrev pub is_for : Text → Option Text → Bool
is_for d none = false
is_for d (some dom) = dom == d

-- The sum of the calls for a counter and a period
abbrev pub seen : ℕ → Text → List Call → ℕ
seen t counter [] = 0
seen t counter (c ∷ calls) = amount t counter c + seen t counter calls

-- The sum of those for a domain
abbrev pub seen_by : Text → ℕ → Text → List Call → ℕ
seen_by d t counter [] = 0
seen_by d t counter (c ∷ calls) =
    (if is_for d c.dom then amount t counter c else 0) + seen_by d t counter calls

-- The counts of a domain, and those of all domains, have grown by what was seen.
abbrev pub Grows : List Call → Data → Text → Data → Type 0
Grows calls data' d after =
    (t : ℕ) (counter : Text)
    → (count d t counter after ≡ count d t counter data' + seen_by d t counter calls)
      × (count global_name t counter after
          ≡ count global_name t counter data' + seen t counter calls)

not_global :
    (domains : List Text)
    → is_domain domains (some global_name) ≡ false
    → (d : Text) → is_domain domains (some d) ≡ true
    → (d == global_name) ≡ false
not_global domains none_global d mine = elim (Bool-cases (d == global_name)) [
  | inl e ↦ false-true (
      sym none_global
      ∙ ap (λ x. is_domain domains (some x)) (sym ((==_iff d global_name).0 e))
      ∙ mine)
  | inr e ↦ e
]

==_swap : (a b : Text) → (a == b) ≡ false → (b == a) ≡ false
==_swap a b h = elim (Bool-cases (b == a)) [
  | inl e ↦ false-true (sym h ∙ ap (λ x. a == x) ((==_iff b a).0 e) ∙ ==_refl a)
  | inr e ↦ e
]

own_amount :
    (domains : List Text) (c : Call) (d : Text) (t : ℕ) (counter : Text)
    → is_domain domains (some d) ≡ true
    → (dom : Option Text)
    → call_adds domains c.cur_t dom c.counter c.val d t counter
      ≡ (if is_for d dom then amount t counter c else 0)
own_amount domains c d t counter mine none = refl
own_amount domains c d t counter mine (some dom) = elim (Bool-cases (dom == d)) [
  | inl e ↦ if_true _ (ap (λ x. is_domain domains (some x)) ((==_iff dom d).0 e) ∙ mine)
  | inr e ↦ elim (Bool-cases (is_domain domains (some dom))) [
    | inl ours ↦ if_true _ ours
    | inr not_ours ↦ if_false _ not_ours ∙ sym (if_false _ e)
  ]
]

global_amount :
    (domains : List Text) (c : Call) (t : ℕ) (counter : Text)
    → is_domain domains (some global_name) ≡ false
    → (dom : Option Text) → call_adds domains c.cur_t dom c.counter c.val global_name t counter ≡ 0
global_amount domains c t counter none_global none = refl
global_amount domains c t counter none_global (some dom) =
    elim (Bool-cases (is_domain domains (some dom))) [
      | inl ours ↦ if_true _ ours ∙ if_false _ (not_global domains none_global dom ours)
      | inr not_ours ↦ if_false _ not_ours
    ]

add_zero : (n : ℕ) → n + 0 ≡ n
add_zero n = omega arith

zero_add : (n : ℕ) → 0 + n ≡ n
zero_add n = omega arith

add_steps :
    (before middle after first rest : ℕ)
    → middle ≡ before + first
    → after ≡ middle + rest
    → after ≡ before + (first + rest)
add_steps before middle after first rest h k = omega (arith, h, k)

step_Grows :
    (domains variables : List Text) (c : Call) (data' after : Data)
    → inc_counter domains variables c.cur_t c.dom c.counter c.val data' ≡ ok after
    → is_domain domains (some global_name) ≡ false
    → (d : Text) → is_domain domains (some d) ≡ true
    → (t : ℕ) (counter : Text)
    → (count d t counter after
        ≡ count d t counter data' + (if is_for d c.dom then amount t counter c else 0))
      × (count global_name t counter after ≡ count global_name t counter data' + amount t counter c)
step_Grows domains variables c data' after done none_global d mine t counter =
    let counted =
      inc_counter-count domains variables c.cur_t c.dom c.counter c.val data' after done in
    let apart = ==_swap d global_name (not_global domains none_global d mine) in
    (
      counted d t counter
          ∙ ap (λ n. count d t counter data' + n)
              (ap (λ n. n + adds c.cur_t global_name c.counter c.val d t counter)
                  (own_amount domains c d t counter mine c.dom)
                ∙ ap (λ n. (if is_for d c.dom then amount t counter c else 0) + n)
                    (if_false _ apart)
                ∙ add_zero _),
      counted global_name t counter
          ∙ ap (λ n. count global_name t counter data' + n)
              (ap (λ n. n + adds c.cur_t global_name c.counter c.val global_name t counter)
                  (global_amount domains c t counter none_global c.dom)
                ∙ zero_add _
                ∙ if_true 0 (==_refl global_name)),
    )

-- Where the domains, none of them "global", have their data, whose periods have all the
-- variables, calls for these variables all return. After them the counter of each domain and
-- period is what it was and the calls for it, and that of all domains what it was and all the
-- calls.
pub inc_counters-Grows :
    (domains variables : List Text) (calls : List Call) (data' : Data)
    → AllKnown variables calls
    → AreReady domains variables data'
    → is_domain domains (some global_name) ≡ false
    → (d : Text) → is_domain domains (some d) ≡ true
    → (after : Data) × (inc_counters domains variables calls data' ≡ ok after)
      × Grows calls data' d after
inc_counters-Grows domains variables [] data' known ready none_global d mine =
    (data', refl, λ t counter. (sym (add_zero _), sym (add_zero _)))
inc_counters-Grows domains variables (c ∷ calls) data' (known, all_known) ready none_global d mine =
    let (middle, done, still) =
      inc_counter-AreReady domains variables c.cur_t c.dom c.counter c.val data' known ready in
    let (after, goes, grown) =
      inc_counters-Grows domains variables calls middle all_known still none_global d mine in
    let first = step_Grows domains variables c data' middle done none_global d mine in
    (
      after,
      ok_goes_on _ _ done goes,
      λ t counter. (
        add_steps _ _ _ _ _ ((first t counter).0) ((grown t counter).0),
        add_steps _ _ _ _ _ ((first t counter).1) ((grown t counter).1),
      ),
    )
