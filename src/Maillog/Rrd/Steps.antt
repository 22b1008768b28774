-- ===== src/Maillog/Rrd/Steps.antt =====
-- The points of an update follow one another at the step, without a gap.
use mrt_post_office.Prelude.{
  ℕ, zero, suc, ◌+◌, ◌-◌, ◌*◌, ◌%◌, ◌≤◌, true, false, ◌≡◌, none, List, [], ◌∷◌, Text, leb, text_eq,
  nat_eq, arith, if_true,
}
use mrt_post_office.Prelude.Dict.{Dict, insert}
use mrt_post_office.Prelude.Result.{ok}
use mrt_post_office.Maillog.Counters.{Counts}
use mrt_post_office.Maillog.Rrd.{rrdstep, update_rrd}

-- `n` steps, from the one after the a-th
abbrev pub steps : ℕ → ℕ → List ℕ
steps a zero = []
steps a (suc n) = rrdstep * suc a ∷ steps (suc a) n

-- no more steps than seconds
steps_le : (a n : ℕ) → n ≤ rrdstep * (a + suc n)
steps_le a n = omega arith

leb_self : (m : ℕ) → leb m m ≡ true
leb_self m = ground arith

-- An update of a file that does not exist writes no point, and takes the period for recorded.
pub update_rrd-new_file :
    (variables : List Text) (periods : Dict ℕ Counts) (fname : Text) (t : ℕ)
    (lupdates : Dict Text ℕ)
    → update_rrd none variables periods fname t lupdates
      ≡ ok (false, insert fname (t - t % rrdstep) lupdates, [])
unfolding update_rrd
update_rrd-new_file variables periods fname t lupdates = if_true _ (leb_self (t - t % rrdstep))
