-- ===== src/Paginator.antt =====
-- Pages of a list: modoboa/lib/paginator.py. `/` on integers is Python's true division; its value
-- is kept as an exact fraction, where Python rounds it to a float.
pub mod Bounds
mod Tests
use mrt_post_office.Prelude.{
  ℕ, ◌+◌, ◌-◌, ◌*◌, ◌%◌, Bool, Option, none, some, ltb, leb, if◌then◌else◌, ◌==◌, nat_eq,
}
use mrt_post_office.Prelude.Int.{ℤ, pos, negsuc}

pub record Fraction : Type 0 where
  pub numerator : ℕ
  pub denominator : ℕ

pub record Paginator : Type 0 where
  pub total : ℕ
  pub elems_per_page : ℕ
  pub num_pages : Fraction

-- `total / n`, and one more where something is left over
abbrev pub count_pages : ℕ → ℕ → Fraction
count_pages total n =
    if total % n == 0
    then record { numerator = total; denominator = n }
    else record { numerator = total + n; denominator = n }

-- `Paginator.__init__`: no page size of 0, by which nothing divides
unfoldable pub paginator : ℕ → ℕ → Option Paginator
paginator total n =
    if n == 0
    then none
    else some (record { total = total; elems_per_page = n; num_pages = count_pages total n })

pub record Page : Type 0 where
  pub paginator : Paginator
  pub number : ℕ
  pub id_start : ℕ
  pub id_stop : ℕ

-- `_indexes`, of the page before the page number
abbrev pub indexes : Paginator → ℕ → ℕ × ℕ
indexes p page =
    let id_start = p.elems_per_page * page + 1 in (id_start, id_start + p.elems_per_page - 1)

unfoldable pub getpage : Paginator → ℤ → Option Page
getpage p (negsuc _) = none
getpage p (pos page_id) =
    if ltb page_id 1
    then none
    else let (id_start, id_stop) = indexes p (page_id - 1) in
      if leb id_start p.total
      then some (record {
        paginator = p;
        number = page_id;
        id_start = id_start;
        id_stop = if leb p.total id_stop then p.total else id_stop;
      })
      else none

unfoldable pub items : Page → ℕ
items page = page.id_stop - page.id_start

abbrev pub has_previous : Page → Bool
has_previous page = ltb 1 page.number

-- `none` for False
unfoldable pub previous_page_number : Page → Option ℕ
previous_page_number page = if has_previous page then some (page.number - 1) else none

abbrev pub has_next : Page → Bool
has_next page = ltb page.id_stop page.paginator.total

unfoldable pub next_page_number : Page → Option ℕ
next_page_number page = if has_next page then some (page.number + 1) else none

unfoldable pub last_page : Page → Fraction
last_page page =
    let p = page.paginator in
    if p.total == 0
    then record { numerator = 1; denominator = 1 }
    else count_pages p.total p.elems_per_page
