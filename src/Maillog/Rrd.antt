-- ===== src/Maillog/Rrd.antt =====
-- LogParser.update_rrd: the points that go to the file of a domain. What rrdtool does with them is
-- not modelled; `on_disk` is `rrdtool.last` of a file that exists.
use mrt_post_office.Prelude.{
  ℕ, zero, suc, ◌+◌, ◌-◌, ◌%◌, Bool, true, false, Option, none, some, List, [], ◌∷◌, ◌++◌, Text,
  if◌then◌else◌, ltb, leb, text_eq, nat_eq, get_or,
}
use mrt_post_office.Prelude.Dict.{Dict, lookup, insert}
use mrt_post_office.Prelude.Result.{Result, ok, err, ◌>>=◌, or_raise}
use mrt_post_office.Maillog.Counters.{Counts, Error, key_error}
pub mod Steps

abbrev pub rrdstep : ℕ
rrdstep = 60

-- A line for `rrdtool.update`: the time and the values, in the order of the variables
pub record Point : Type 0 where
  pub ts : ℕ
  pub values : List ℕ

-- `range(start, stop, rrdstep)`, in `rounds` rounds at the most
unfoldable pub range : (rounds start stop : ℕ) → List ℕ
range zero start stop = []
range (suc rounds) start stop =
    let rest = range rounds (start + rrdstep) stop in if ltb start stop then start ∷ rest else []

abbrev pub zeros : List Text → List ℕ
zeros [] = []
zeros (v ∷ variables) = 0 ∷ zeros variables

abbrev pub point_at : List Text → ℕ → Point
point_at variables p = record { ts = p; values = zeros variables }

abbrev pub empty_points : List Text → List ℕ → List Point
empty_points variables [] = []
empty_points variables (p ∷ ps) = point_at variables p ∷ empty_points variables ps

-- the values of a period
abbrev pub read_values : List Text → Counts → Result Error (List ℕ)
read_values [] counts = ok []
read_values (v ∷ variables) counts = do
  value ← or_raise (lookup v counts) key_error
  rest ← read_values variables counts
  ok (value ∷ rest)

-- `self.lupdates[fname]` after the first test; a new file is created at `m`
abbrev pub last_update : Option ℕ → Option ℕ → (m : ℕ) → ℕ
last_update none known m = m
last_update (some last) known m = get_or known last

-- the points up to `m`, where it is later than the last
abbrev pub update_at :
    (on_disk : Option ℕ)
    → (variables : List Text) → (periods : Dict ℕ Counts) → (fname : Text) → (m : ℕ)
    → (lupdates : Dict Text ℕ) → Result Error (Bool × Dict Text ℕ × List Point)
update_at on_disk variables periods fname m lupdates =
    let last = last_update on_disk (lookup fname lupdates) m in
    if leb m last then ok (false, insert fname last lupdates, []) else do
      counts ← or_raise (lookup m periods) key_error
      values ← read_values variables counts
      let missing = if ltb (last + rrdstep) m then range m (last + rrdstep) m else []
      ok (
        true,
        insert fname m lupdates,
        empty_points variables missing ++ (record { ts = m; values = values } ∷ []),
      )

unfoldable pub update_rrd :
    (on_disk : Option ℕ)
    → (variables : List Text) → (periods : Dict ℕ Counts) → (fname : Text) → (t : ℕ)
    → (lupdates : Dict Text ℕ) → Result Error (Bool × Dict Text ℕ × List Point)
update_rrd on_disk variables periods fname t lupdates =
    update_at on_disk variables periods fname (t - t % rrdstep) lupdates
