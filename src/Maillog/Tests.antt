-- ===== src/Maillog/Tests.antt =====
-- Witnesses and tests of the counters.
use mrt_post_office.Prelude.{
  nat_eq, ◌≡◌, refl, none, some, List, [], ◌∷◌, Text, ◌==◌, ==_iff, sym, subst, ◌∙◌, text_eq,
  none-some,
}
use mrt_post_office.Prelude.Bools.{or_false}
use mrt_post_office.Prelude.Chars.{codes}
use mrt_post_office.Prelude.Result.{ok}
use mrt_post_office.Maillog.Counters.{Counts, Data, global_name}
use mrt_post_office.Maillog.Counters.Ready.{AreReady, IsReady}
use mrt_post_office.Maillog.Counters.Totals.{Call, inc_counters, Grows, inc_counters-Grows}

abbrev example : Text
example = codes "example.org"

abbrev domains : List Text
domains = example ∷ []

abbrev variables : List Text
variables = codes "sent" ∷ codes "recv" ∷ []

abbrev empty : Data
empty = (global_name, []) ∷ (example, []) ∷ []

abbrev calls : List Call
calls =
    record { cur_t = 300; dom = some example; counter = codes "sent"; val = 2 }
    ∷ record { cur_t = 300; dom = none; counter = codes "sent"; val = 1 }
    ∷ []

example-IsReady : IsReady variables empty example
example-IsReady = ([], refl, λ t counts e. none-some e)

empty-AreReady : AreReady domains variables empty
empty-AreReady = (
  λ d mine.
      subst (IsReady variables empty) ((==_iff example d).0 (sym (or_false (example == d)) ∙ mine))
        example-IsReady,
  ([], refl, λ t counts e. none-some e),
)

inc_counters-Grows_example :
    (after : Data) × (inc_counters domains variables calls empty ≡ ok after)
    × Grows calls empty example after
inc_counters-Grows_example =
    inc_counters-Grows domains variables calls empty (refl, (refl, tt)) empty-AreReady refl example
      refl

abbrev counted : Counts
counted = (codes "sent", 2) ∷ (codes "recv", 1) ∷ []
