-- ===== src/Policyd/Schedule.antt =====
-- When the counters are reset: wait_for, get_next_execution_dt and the coroutine reset_counters of
-- modoboa/policyd/core.py, which schedules itself again. A moment is the number of microseconds
-- since a midnight, the resolution of `datetime`. A sleep that starts at a moment t overruns by
-- `late t`, and a reset that starts at t takes `work t`.
pub mod Daily
use mrt_post_office.Prelude.{
  ℕ, zero, suc, ◌+◌, ◌-◌, ◌*◌, ◌/◌, ◌%◌, Option, none, some, List, [], ◌∷◌, if◌then◌else◌,
}
use mrt_post_office.Prelude.Int.{ℤ, pos, pos_part, ◌-ℤ◌, ltb_ℤ}

-- 86400 seconds
abbrev pub one_day : ℕ
one_day = 86400000000

-- What a sleep of `duration` ends at: at once for a negative duration.
abbrev pub sleep : (ℕ → ℕ) → ℤ → ℕ → ℕ
sleep late duration now = now + pos_part duration + late now

-- `none` when the rounds of the loop do not suffice
unfoldable pub wait_for : (late : ℕ → ℕ) → (rounds : ℕ) → (dt now : ℕ) → Option ℕ
wait_for late zero dt now = none
wait_for late (suc rounds) dt now =
    let remaining = pos dt -ℤ pos now in
    let later = wait_for late rounds dt (sleep late (pos one_day) now) in
    if ltb_ℤ remaining (pos one_day) then some (sleep late remaining now) else later

-- The same time of the next day with hour, minute and second 0: the microseconds stay.
unfoldable pub get_next_execution_dt : ℕ → ℕ
get_next_execution_dt now =
    let tomorrow = now + one_day in tomorrow / one_day * one_day + tomorrow % 1000000

-- The moments at which the next `count` resets start, of which the first is due at `dt`.
unfoldable pub reset_times : (late work : ℕ → ℕ) → (count dt now : ℕ) → Option (List ℕ)
reset_times late work zero dt now = some []
reset_times late work (suc count) dt now = elim (wait_for late 3 dt now) [
  | none ↦ none
  | some start ↦
      let done = start + work start in
      elim (reset_times late work count (get_next_execution_dt done) done) [
        | none ↦ none
        | some starts ↦ some (start ∷ starts)
      ]
]

-- `start_reset_counters_coro`
unfoldable pub start_reset_counters_coro : (late work : ℕ → ℕ) → (count now : ℕ) → Option (List ℕ)
start_reset_counters_coro late work count now =
    reset_times late work count (get_next_execution_dt now) now
