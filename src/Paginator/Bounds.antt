-- ===== src/Paginator/Bounds.antt =====
-- Which indexes a page shows, how pages follow one another, and the numbers that the pages tell.
use mrt_post_office.Prelude.{
  ℕ, zero, suc, ◌+◌, ◌-◌, ◌*◌, ◌/◌, ◌%◌, ◌≤◌, ◌<◌, ◌≡◌, ◌≢◌, ◌↔◌, none, some, arith, refl, nat_eq,
  ◌==◌, ==_iff, leb, if◌then◌else◌, if_some, ◌∙◌, Bool-cases, inl, inr, true, ◌⊎◌, sym, subst, ap,
}
use native.Mathlib.Nat.{
  mul-div-le, lt-mul-div-succ, div-eq_of_lt-le, mul_comm, zero-mod, add-mod_right, mul-mod_left,
}
use mrt_post_office.Prelude.Int.{pos}
use mrt_post_office.Paginator.{
  Paginator, Page, getpage, previous_page_number, next_page_number, last_page,
}

-- the index of an item stands on the page
abbrev pub Shows : Page → ℕ → Type 0
Shows page i = (page.id_start ≤ i) × (i ≤ page.id_stop)

-- the last index of a page that starts after `before` items
abbrev stop_after : Paginator → ℕ → ℕ
stop_after p before =
    if leb p.total (before + p.elems_per_page) then p.total else before + p.elems_per_page

abbrev page_after : Paginator → ℕ → Page
page_after p j = record {
  paginator = p;
  number = suc j;
  id_start = p.elems_per_page * j + 1;
  id_stop = stop_after p (p.elems_per_page * j);
}

getpage-suc :
    (p : Paginator) (j : ℕ)
    → getpage p (pos (suc j))
      ≡ (if leb (p.elems_per_page * j + 1) p.total then some (page_after p j) else none)
unfolding getpage
getpage-suc p j = ground arith

getpage_inv :
    (p : Paginator) (k : ℕ) (page : Page)
    → getpage p (pos k) ≡ some page
    → (j : ℕ) × (k ≡ suc j) × (page_after p j ≡ page) × (p.elems_per_page * j + 1 ≤ p.total)
getpage_inv p zero page found = unfold getpage in cc
getpage_inv p (suc j) page found =
    let (inside, same) =
      if_some (leb (p.elems_per_page * j + 1) p.total) (sym (getpage-suc p j) ∙ found) in
    (j, refl, same, ground arith)

-- Stated for each j: the items j * n + 1 to (j + 1) * n are those whose index, less one, divides to j.
shown_quotient :
    (p : Paginator) (i j : ℕ) → Shows (page_after p j) i → j ≡ (i - 1) / p.elems_per_page
shown_quotient p i j (first, last) =
    let n = p.elems_per_page in
    let below : i ≤ n * j + n = ground arith in
    sym (div-eq_of_lt-le n (omega (arith, mul_comm j n)) (omega (arith, mul_comm j n)))

quotient_shown :
    (p : Paginator) (i : ℕ)
    → 0 < p.elems_per_page
    → 1 ≤ i
    → i ≤ p.total
    → Shows (page_after p ((i - 1) / p.elems_per_page)) i
quotient_shown p i size first last =
    let n = p.elems_per_page in
    let low = mul-div-le (i - 1) n in let high = lt-mul-div-succ (i - 1) size in ground arith

-- With a page size above 0, each item from 1 to the total is shown by exactly one page, whose
-- number is one more than the quotient of the items before it by the page size.
pub getpage-Shows :
    (p : Paginator) (i k : ℕ)
    → 0 < p.elems_per_page
    → 1 ≤ i
    → i ≤ p.total
    → ((page : Page) × (getpage p (pos k) ≡ some page) × Shows page i)
      ↔ (k ≡ (i - 1) / p.elems_per_page + 1)
getpage-Shows p i k size first last = (
  (λ (page, found, shown).
      let (j, number, same, inside) = getpage_inv p k page found in
      let shown_after = subst (λ x. Shows x i) (sym same) shown in
      let quotient = shown_quotient p i j shown_after in omega arith),
  (λ number.
      let q = (i - 1) / p.elems_per_page in
      let inside : leb (p.elems_per_page * q + 1) p.total ≡ true =
        (let low = mul-div-le (i - 1) p.elems_per_page in ground arith) in
      let found : getpage p (pos (suc q)) ≡ some (page_after p q) =
        getpage-suc p q ∙ ap (λ b. if b then some (page_after p q) else none) inside in
      (
        page_after p q,
        subst (λ x. getpage p (pos x) ≡ some (page_after p q)) (omega arith) found,
        quotient_shown p i size first last,
      )),
)

-- where a page ends: at the last item, or before the first item of the next page
abbrev pub EndsOrGoesOn : Paginator → ℕ → Page → Type 0
EndsOrGoesOn p k page =
    ((next_page_number page ≡ none) × (page.id_stop ≡ p.total))
    ⊎ ((next : Page) × (next_page_number page ≡ some (suc k))
        × (getpage p (pos (suc k)) ≡ some next)
        × (next.id_start ≡ page.id_stop + 1)
        × (previous_page_number next ≡ some k))

follows_after : (p : Paginator) (j : ℕ) → EndsOrGoesOn p (suc j) (page_after p j)
unfolding next_page_number previous_page_number
follows_after p j = elim (Bool-cases (leb p.total (p.elems_per_page * j + p.elems_per_page))) [
  | inl last ↦ inl (ground arith, ground arith)
  | inr more ↦ inr (
    page_after p (suc j),
    ground arith,
    getpage-suc p (suc j) ∙ ground arith,
    ground arith,
    ground arith,
  )
]

pub next_page_number-getpage :
    (p : Paginator) (k : ℕ) (page : Page) → getpage p (pos k) ≡ some page → EndsOrGoesOn p k page
next_page_number-getpage p k page found =
    let (j, number, same, inside) = getpage_inv p k page found in
    subst (EndsOrGoesOn p k) same
      (subst (λ x. EndsOrGoesOn p x (page_after p j)) (sym number) (follows_after p j))

whole_divides : (total n k : ℕ) → total + n ≡ k * n → total % n ≡ 0
whole_divides total n k whole =
    sym (add-mod_right total n) ∙ ap (λ x. x % n) whole ∙ mul-mod_left k n

pub last_page-not_whole :
    (page : Page) (k : ℕ)
    → page.paginator.total % page.paginator.elems_per_page ≢ 0
    → (last_page page).numerator ≢ k * (last_page page).denominator
unfolding last_page
last_page-not_whole page k left whole =
    let total = page.paginator.total in
    let n = page.paginator.elems_per_page in
    elim (Bool-cases (total == 0)) [
      | inl nothing ↦ left (ap (λ x. x % n) ((==_iff total 0).0 nothing) ∙ zero-mod n)
      | inr some_items ↦ left (whole_divides total n k (ground arith))
    ]
