-- ===== src/Maillog/Counters/Tally.antt =====
-- The counters are the tallies of the events.
use mrt_post_office.Prelude.{
  ℕ, ◌+◌, ◌≡◌, refl, Option, none, some, List, [], ◌∷◌, Text, if◌then◌else◌, ◌==◌, ==_iff, nat_eq,
  text_eq, get_or, arith, Bool-cases, inl, inr, ap, sym, ◌∙◌, if_true, if_false,
}
use mrt_post_office.Prelude.Dict.{Dict, lookup, insert, lookup-insert}
use mrt_post_office.Prelude.Result.{ok, or_raise, or_raise-ok, >>=-eq-ok, ok_injective}
use mrt_post_office.Maillog.Counters.{
  Counts, Data, key_error, initcounters, inc_at, global_name, is_domain, inc_domain, inc_counter,
}

abbrev count_in : Text → Option Counts → ℕ
count_in counter none = 0
count_in counter (some counts) = get_or (lookup counter counts) 0

abbrev period_in : ℕ → Option (Dict ℕ Counts) → Option Counts
period_in t none = none
period_in t (some periods) = lookup t periods

-- A counter of a domain and a period, 0 where there is none
abbrev pub count : (dom : Text) → (t : ℕ) → (counter : Text) → Data → ℕ
count dom t counter data' = count_in counter (period_in t (lookup dom data'))

init_zero :
    (variables : List Text) (counter : Text)
    → get_or (lookup counter (initcounters variables)) 0 ≡ 0
init_zero [] counter = refl
init_zero (v ∷ variables) counter =
    ap (λ o. get_or o 0) (lookup-insert v counter 0 (initcounters variables))
    ∙ elim (Bool-cases (v == counter)) [
      | inl e ↦ ap (λ o. get_or o 0) (if_true _ e)
      | inr e ↦ ap (λ o. get_or o 0) (if_false _ e) ∙ init_zero variables counter
    ]

-- A period that is begun counts as it did before.
count_begun :
    (variables : List Text) (other : Text) (found : Option Counts)
    → get_or (lookup other (get_or found (initcounters variables))) 0 ≡ count_in other found
count_begun variables other none = init_zero variables other
count_begun variables other (some counts) = refl

more_none : (n : ℕ) → n ≡ n + 0
more_none n = omega arith

-- by the counter that is incremented
count_after :
    (variables : List Text) (counter other : Text) (val old : ℕ) (found : Option Counts)
    → lookup counter (get_or found (initcounters variables)) ≡ some old
    → count_in other (some (insert counter (old + val) (get_or found (initcounters variables))))
      ≡ count_in other found + (if counter == other then val else 0)
count_after variables counter other val old found there =
    ap (λ o. get_or o 0)
      (lookup-insert counter other (old + val) (get_or found (initcounters variables)))
    ∙ elim (Bool-cases (counter == other)) [
      | inl e ↦
          let same : old ≡ count_in other found =
            sym (ap (λ o. get_or o 0) there)
            ∙ ap (λ c. get_or (lookup c (get_or found (initcounters variables))) 0)
                ((==_iff counter other).0 e)
            ∙ count_begun variables other found in
          ap (λ o. get_or o 0) (if_true _ e)
          ∙ ap (λ n. n + val) same
          ∙ ap (λ n. count_in other found + n) (sym (if_true _ e))
      | inr e ↦
          ap (λ o. get_or o 0) (if_false _ e)
          ∙ count_begun variables other found
          ∙ more_none _
          ∙ ap (λ n. count_in other found + n) (sym (if_false _ e))
    ]

-- What an increment of `dom` adds to the count of `d`, `t` and `other`
abbrev pub adds :
    (cur_t : ℕ) → (dom counter : Text) → (val : ℕ) → (d : Text) → (t : ℕ) → (other : Text) → ℕ
adds cur_t dom counter val d t other =
    if dom == d then (if cur_t == t then (if counter == other then val else 0) else 0) else 0

-- by the period that is incremented
period_after :
    (cur_t t : ℕ) (other : Text) (counts : Counts) (periods : Dict ℕ Counts) (more : ℕ)
    → count_in other (some counts) ≡ count_in other (lookup cur_t periods) + more
    → count_in other (lookup t (insert cur_t counts periods))
      ≡ count_in other (lookup t periods) + (if cur_t == t then more else 0)
period_after cur_t t other counts periods more h =
    ap (λ o. count_in other o) (lookup-insert cur_t t counts periods)
    ∙ elim (Bool-cases (cur_t == t)) [
      | inl e ↦
          ap (λ o. count_in other o) (if_true _ e)
          ∙ h
          ∙ ap (λ k. count_in other (lookup k periods) + more) ((==_iff cur_t t).0 e)
          ∙ ap (λ n. count_in other (lookup t periods) + n) (sym (if_true _ e))
      | inr e ↦
          ap (λ o. count_in other o) (if_false _ e)
          ∙ more_none _
          ∙ ap (λ n. count_in other (lookup t periods) + n) (sym (if_false _ e))
    ]

-- by the domain that is incremented
domain_after :
    (dom d : Text) (t : ℕ) (other : Text) (periods before : Dict ℕ Counts) (data' : Data) (more : ℕ)
    → lookup dom data' ≡ some before
    → count_in other (lookup t periods) ≡ count_in other (lookup t before) + more
    → count d t other (insert dom periods data')
      ≡ count d t other data' + (if dom == d then more else 0)
domain_after dom d t other periods before data' more there h =
    ap (λ o. count_in other (period_in t o)) (lookup-insert dom d periods data')
    ∙ elim (Bool-cases (dom == d)) [
      | inl e ↦
          ap (λ o. count_in other (period_in t o)) (if_true _ e)
          ∙ h
          ∙ ap (λ o. count_in other (period_in t o) + more) (sym there)
          ∙ ap (λ k. count k t other data' + more) ((==_iff dom d).0 e)
          ∙ ap (λ n. count d t other data' + n) (sym (if_true _ e))
      | inr e ↦
          ap (λ o. count_in other (period_in t o)) (if_false _ e)
          ∙ more_none _
          ∙ ap (λ n. count d t other data' + n) (sym (if_false _ e))
    ]

pub inc_at-count :
    (variables : List Text) (cur_t : ℕ) (dom counter : Text) (val : ℕ) (data' after : Data)
    → inc_at variables cur_t dom counter val data' ≡ ok after
    → (d : Text) (t : ℕ) (other : Text)
    → count d t other after ≡ count d t other data' + adds cur_t dom counter val d t other
unfolding inc_at
inc_at-count variables cur_t dom counter val data' after h d t other =
    let (periods, got, rest) = >>=-eq-ok (or_raise (lookup dom data') key_error) _ h in
    let found = lookup cur_t periods in
    let counts = get_or found (initcounters variables) in
    let (old, was, last) = >>=-eq-ok (or_raise (lookup counter counts) key_error) _ rest in
    ap (λ x. count d t other x) (sym (ok_injective last))
    ∙ domain_after dom d t other (insert cur_t (insert counter (old + val) counts) periods) periods
        data' _ (or_raise-ok _ key_error got)
        (period_after cur_t t other (insert counter (old + val) counts) periods _
          (count_after variables counter other val old found (or_raise-ok _ key_error was)))

-- What a call for `dom` adds to the count of `d`, `t` and `other`
abbrev pub call_adds :
    (domains : List Text)
    → (cur_t : ℕ) → Option Text
    → (counter : Text) → (val : ℕ) → (d : Text) → (t : ℕ) → (other : Text) → ℕ
call_adds domains cur_t none counter val d t other = 0
call_adds domains cur_t (some dom) counter val d t other =
    if is_domain domains (some dom) then adds cur_t dom counter val d t other else 0

inc_domain-count :
    (domains variables : List Text) (cur_t : ℕ) (dom : Option Text) (counter : Text) (val : ℕ)
    (data' after : Data)
    → inc_domain domains variables cur_t dom counter val data' ≡ ok after
    → (d : Text) (t : ℕ) (other : Text)
    → count d t other after
      ≡ count d t other data' + call_adds domains cur_t dom counter val d t other
inc_domain-count domains variables cur_t none counter val data' after h d t other =
    ap (λ x. count d t other x) (sym (ok_injective h)) ∙ more_none _
inc_domain-count domains variables cur_t (some dom) counter val data' after h d t other =
    elim (Bool-cases (is_domain domains (some dom))) [
      | inl e ↦
          inc_at-count variables cur_t dom counter val data' after (sym (if_true _ e) ∙ h) d t other
          ∙ ap (λ n. count d t other data' + n) (sym (if_true _ e))
      | inr e ↦
          ap (λ x. count d t other x) (sym (ok_injective (sym (if_false _ e) ∙ h)))
          ∙ more_none _
          ∙ ap (λ n. count d t other data' + n) (sym (if_false _ e))
    ]

add_assoc : (a b c : ℕ) → a + b + c ≡ a + (b + c)
add_assoc a b c = omega arith

-- A call that returns adds its value to one counter of the period in the domain, if it is ours,
-- and to that of all domains, and changes no other count.
pub inc_counter-count :
    (domains variables : List Text) (cur_t : ℕ) (dom : Option Text) (counter : Text) (val : ℕ)
    (data' after : Data)
    → inc_counter domains variables cur_t dom counter val data' ≡ ok after
    → (d : Text) (t : ℕ) (other : Text)
    → count d t other after
      ≡ count d t other data'
        + (call_adds domains cur_t dom counter val d t other
            + adds cur_t global_name counter val d t other)
unfolding inc_counter
inc_counter-count domains variables cur_t dom counter val data' after h d t other =
    let (mid, first, second) =
      >>=-eq-ok (inc_domain domains variables cur_t dom counter val data') _ h in
    inc_at-count variables cur_t global_name counter val mid after second d t other
    ∙ ap (λ n. n + adds cur_t global_name counter val d t other)
        (inc_domain-count domains variables cur_t dom counter val data' mid first d t other)
    ∙ add_assoc _ _ _
