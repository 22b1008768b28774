-- ===== src/Paginator/Tests.antt =====
-- Pages of ten items, four on a page.
use mrt_post_office.Prelude.{◌+◌, ◌-◌, ◌*◌, ◌/◌, ◌≡◌, ◌≢◌, ◌↔◌, refl, none, some, arith}
use mrt_post_office.Prelude.Int.{pos}
use mrt_post_office.Paginator.{Paginator, Page, paginator, getpage, items, last_page, count_pages}
use mrt_post_office.Paginator.Bounds.{
  Shows, EndsOrGoesOn, getpage-Shows, next_page_number-getpage, last_page-not_whole,
}

abbrev ten : Paginator
ten = record { total = 10; elems_per_page = 4; num_pages = count_pages 10 4 }

abbrev third : Page
third = record { paginator = ten; number = 3; id_start = 9; id_stop = 10 }

ten_items : paginator 10 4 ≡ some ten
unfolding paginator
ten_items = refl

third_page : getpage ten (pos 3) ≡ some third
unfolding getpage
third_page = refl

no_page : (getpage ten (pos 0) ≡ none) × (getpage ten (pos 4) ≡ none)
unfolding getpage
no_page = (refl, refl)

-- two items are shown, 9 and 10, and one is counted
counted_items : items third ≡ 1
unfolding items
counted_items = refl

getpage-Shows_example :
    ((page : Page) × (getpage ten (pos 3) ≡ some page) × Shows page 9) ↔ (3 ≡ (9 - 1) / 4 + 1)
getpage-Shows_example = getpage-Shows ten 9 3 (omega arith) (omega arith) (omega arith)

third_ends : EndsOrGoesOn ten 3 third
third_ends = next_page_number-getpage ten 3 third third_page

two_and_a_half_pages : (last_page third).numerator ≢ 3 * (last_page third).denominator
two_and_a_half_pages = last_page-not_whole third 3 (λ h. omega arith)
