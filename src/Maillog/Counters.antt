-- ===== src/Maillog/Counters.antt =====
-- LogParser.initcounters and inc_counter: how often each event was seen, by domain and period.
pub mod Ready
pub mod Tally
pub mod Totals
use mrt_post_office.Prelude.{
  ℕ, ◌+◌, Bool, true, false, Option, none, some, List, [], ◌∷◌, Text, if◌then◌else◌, ◌==◌, nat_eq,
  text_eq, any, get_or,
}
use mrt_post_office.Prelude.Chars.{codes}
use mrt_post_office.Prelude.Dict.{Dict, lookup, insert}
use mrt_post_office.Prelude.Result.{Result, ok, err, ◌>>=◌, or_raise}

-- `self.data`: by domain and period, the number of each variable
abbrev pub Counts : Type 0
Counts = Dict Text ℕ

abbrev pub Data : Type 0
Data = Dict Text (Dict ℕ Counts)

pub data Error : Type 0 where
  key_error : Error

-- `init`, 0 for each variable
abbrev pub initcounters : List Text → Counts
initcounters [] = []
initcounters (v ∷ variables) = insert v 0 (initcounters variables)

-- `self.data[dom][self.cur_t][counter] += val`, on a period that is begun where it is new
unfoldable pub inc_at :
    (variables : List Text)
    → (cur_t : ℕ) → (dom counter : Text) → (val : ℕ) → Data
    → Result Error Data
inc_at variables cur_t dom counter val data' = do
  periods ← or_raise (lookup dom data') key_error
  let counts = get_or (lookup cur_t periods) (initcounters variables)
  old ← or_raise (lookup counter counts) key_error
  ok (insert dom (insert cur_t (insert counter (old + val) counts) periods) data')

abbrev pub global_name : Text
global_name = codes "global"

-- `dom is not None and dom in self.domains`
abbrev pub is_domain : List Text → Option Text → Bool
is_domain domains none = false
is_domain domains (some dom) = any (λ d. d == dom) domains

abbrev pub inc_domain :
    (domains variables : List Text)
    → (cur_t : ℕ) → Option Text
    → (counter : Text) → (val : ℕ) → Data
    → Result Error Data
inc_domain domains variables cur_t none counter val data' = ok data'
inc_domain domains variables cur_t (some dom) counter val data' =
    if is_domain domains (some dom) then inc_at variables cur_t dom counter val data' else ok data'

unfoldable pub inc_counter :
    (domains variables : List Text)
    → (cur_t : ℕ) → Option Text
    → (counter : Text) → (val : ℕ) → Data
    → Result Error Data
inc_counter domains variables cur_t dom counter val data' = do
  after ← inc_domain domains variables cur_t dom counter val data'
  inc_at variables cur_t global_name counter val after
