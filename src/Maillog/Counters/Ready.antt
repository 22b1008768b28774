-- ===== src/Maillog/Counters/Ready.antt =====
-- The calls return, where every domain has its data.
use mrt_post_office.Prelude.{
  ℕ, ◌+◌, Bool, true, ◌||◌, ◌≡◌, refl, Option, none, some, List, [], ◌∷◌, Text, ◌==◌, nat_eq,
  text_eq, any, get_or, Bool-cases, inl, inr, ap, sym, ◌∙◌, if_true, if_false, subst,
  some_injective, is_some,
}
use mrt_post_office.Prelude.Bools.{false-true}
use mrt_post_office.Prelude.Dict.{Dict, lookup, insert, lookup-insert}
use mrt_post_office.Prelude.Result.{Result, ok, found_goes_on, ok_goes_on}
use mrt_post_office.Maillog.Counters.{
  Counts, Data, Error, key_error, initcounters, inc_at, global_name, is_domain, inc_domain,
  inc_counter,
}

abbrev pub is_known : List Text → Text → Bool
is_known variables v = any (λ w. w == v) variables

-- A period has all the variables.
abbrev pub HasAll : List Text → Counts → Type 0
HasAll variables counts =
    (v : Text) → is_known variables v ≡ true → is_some (lookup v counts) ≡ true

abbrev pub AllHaveAll : List Text → Dict ℕ Counts → Type 0
AllHaveAll variables periods =
    (t : ℕ) (counts : Counts) → lookup t periods ≡ some counts → HasAll variables counts

-- The domain has its data, whose periods have all the variables.
abbrev pub IsReady : List Text → Data → Text → Type 0
IsReady variables data' dom =
    (periods : Dict ℕ Counts) × (lookup dom data' ≡ some periods) × AllHaveAll variables periods

insert-is_some :
    {A : Type 0} (k v : Text) (a : A) (d : Dict Text A)
    → is_some (lookup v d) ≡ true
    → is_some (lookup v (insert k a d)) ≡ true
insert-is_some k v a d h = ap is_some (lookup-insert k v a d) ∙ elim (Bool-cases (k == v)) [
  | inl e ↦ ap is_some (if_true _ e)
  | inr e ↦ ap is_some (if_false _ e) ∙ h
]

initcounters-HasAll : (variables : List Text) → HasAll variables (initcounters variables)
initcounters-HasAll [] v known = false-true known
initcounters-HasAll (w ∷ variables) v known = elim (Bool-cases (w == v)) [
  | inl e ↦ ap is_some (lookup-insert w v 0 (initcounters variables) ∙ if_true _ e)
  | inr e ↦
      insert-is_some w v 0 (initcounters variables)
        (initcounters-HasAll variables v (sym (ap (λ b. b || is_known variables v) e) ∙ known))
]

begun-HasAll :
    (variables : List Text) (periods : Dict ℕ Counts) (t : ℕ)
    → AllHaveAll variables periods
    → (found : Option Counts) → lookup t periods ≡ found
    → HasAll variables (get_or found (initcounters variables))
begun-HasAll variables periods t all none e = initcounters-HasAll variables
begun-HasAll variables periods t all (some counts) e = all t counts e

insert-AllHaveAll :
    (variables : List Text) (periods : Dict ℕ Counts) (t : ℕ) (counts : Counts)
    → AllHaveAll variables periods
    → HasAll variables counts
    → AllHaveAll variables (insert t counts periods)
insert-AllHaveAll variables periods t counts all has s other e = elim (Bool-cases (t == s)) [
  | inl same ↦
      subst (HasAll variables)
        (some_injective (sym (if_true _ same) ∙ sym (lookup-insert t s counts periods) ∙ e)) has
  | inr differ ↦ all s other (sym (if_false _ differ) ∙ sym (lookup-insert t s counts periods) ∙ e)
]

insert-IsReady :
    (variables : List Text) (data' : Data) (dom : Text) (periods : Dict ℕ Counts)
    → AllHaveAll variables periods
    → (d : Text) → IsReady variables data' d
    → IsReady variables (insert dom periods data') d
insert-IsReady variables data' dom periods all d (others, there, each) =
    elim (Bool-cases (dom == d)) [
      | inl same ↦ (periods, lookup-insert dom d periods data' ∙ if_true _ same, all)
      | inr differ ↦ (others, lookup-insert dom d periods data' ∙ if_false _ differ ∙ there, each)
    ]

is_some-some : {A : Type 0} (o : Option A) → is_some o ≡ true → (a : A) × (o ≡ some a)
is_some-some none h = false-true h
is_some-some (some a) h = (a, refl)

-- A call that returns, and leaves each domain as ready as it was
abbrev pub Goes : List Text → Data → Result Error Data → Type 0
Goes variables data' result =
    (after : Data) × (result ≡ ok after)
    × ((d : Text) → IsReady variables data' d → IsReady variables after d)

pub inc_at-Goes :
    (variables : List Text) (cur_t : ℕ) (dom counter : Text) (val : ℕ) (data' : Data)
    → is_known variables counter ≡ true
    → IsReady variables data' dom
    → Goes variables data' (inc_at variables cur_t dom counter val data')
unfolding inc_at
inc_at-Goes variables cur_t dom counter val data' known (periods, there, all) =
    let counts = get_or (lookup cur_t periods) (initcounters variables) in
    let has = begun-HasAll variables periods cur_t all (lookup cur_t periods) refl in
    let (old, was) = is_some-some (lookup counter counts) (has counter known) in
    let now = insert counter (old + val) counts in
    let grown =
      insert-AllHaveAll variables periods cur_t now all
        (λ v k. insert-is_some counter v (old + val) counts (has v k)) in
    (
      insert dom (insert cur_t now periods) data',
      found_goes_on _ key_error _ there (found_goes_on _ key_error _ was refl),
      insert-IsReady variables data' dom (insert cur_t now periods) grown,
    )

inc_domain-Goes :
    (domains variables : List Text) (cur_t : ℕ) (dom : Option Text) (counter : Text) (val : ℕ)
    (data' : Data)
    → is_known variables counter ≡ true
    → ((d : Text) → is_domain domains (some d) ≡ true → IsReady variables data' d)
    → Goes variables data' (inc_domain domains variables cur_t dom counter val data')
inc_domain-Goes domains variables cur_t none counter val data' known ready = (data', refl, λ d r. r)
inc_domain-Goes domains variables cur_t (some dom) counter val data' known ready =
    elim (Bool-cases (is_domain domains (some dom))) [
      | inl e ↦
          subst (Goes variables data') (sym (if_true _ e))
            (inc_at-Goes variables cur_t dom counter val data' known (ready dom e))
      | inr e ↦ (data', if_false _ e, λ d r. r)
    ]

-- All domains and the global one are ready.
abbrev pub AreReady : List Text → List Text → Data → Type 0
AreReady domains variables data' =
    ((d : Text) → is_domain domains (some d) ≡ true → IsReady variables data' d)
    × IsReady variables data' global_name

-- A call for a counter that is known returns, and leaves all domains ready.
pub inc_counter-AreReady :
    (domains variables : List Text) (cur_t : ℕ) (dom : Option Text) (counter : Text) (val : ℕ)
    (data' : Data)
    → is_known variables counter ≡ true
    → AreReady domains variables data'
    → (after : Data) × (inc_counter domains variables cur_t dom counter val data' ≡ ok after)
      × AreReady domains variables after
unfolding inc_counter
inc_counter-AreReady domains variables cur_t dom counter val data' known (ready, global) =
    let (mid, first, keeps) =
      inc_domain-Goes domains variables cur_t dom counter val data' known ready in
    let (after, second, keeps_on) =
      inc_at-Goes variables cur_t global_name counter val mid known (keeps global_name global) in
    (
      after,
      ok_goes_on _ _ first second,
      (
        λ d mine. keeps_on d (keeps d (ready d mine)),
        keeps_on global_name (keeps global_name global),
      ),
    )
