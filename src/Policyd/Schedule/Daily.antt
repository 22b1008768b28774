-- ===== src/Policyd/Schedule/Daily.antt =====
-- The wait ends, not before its moment and not much after it; resets happen once a day.
use mrt_post_office.Prelude.{
  ℕ, zero, suc, ◌+◌, ◌-◌, ◌*◌, ◌/◌, ◌%◌, ◌≤◌, ◌<◌, ◌≡◌, refl, ap, subst, ltb, ◌∙◌, some, List, [],
  ◌∷◌, arith, ⊤, if◌then◌else◌, Bool-cases, inl, inr, length,
}
use mrt_post_office.Prelude.Int.{◌-ℤ◌}
use mrt_post_office.Policyd.Schedule.{
  one_day, wait_for, get_next_execution_dt, reset_times, start_reset_counters_coro,
}

wait_for-suc :
    (late : ℕ → ℕ) (rounds dt now : ℕ)
    → wait_for late (suc rounds) dt now ≡ (
        if ltb dt (now + one_day)
        then some (now + (dt - now) + late now)
        else wait_for late rounds dt (now + one_day + late now))
unfolding wait_for ◌-ℤ◌
wait_for-suc late rounds dt now = ground arith

-- a wait for `dt` that ends at `t`, where a sleep overruns by `most` at the most
abbrev pub EndsAt : (late : ℕ → ℕ) → (most rounds dt now t : ℕ) → Type 0
EndsAt late most rounds dt now t =
    (wait_for late rounds dt now ≡ some t)
    × (dt ≤ t)
    × (now ≤ t)
    × (now ≤ dt + most → t ≤ dt + 2 * most)

module _ (late : ℕ → ℕ) (most : ℕ) (prompt : (now : ℕ) → late now ≤ most) where
  last_round :
      (rounds dt now : ℕ)
      → dt < now + one_day
      → EndsAt late most (suc rounds) dt now (now + (dt - now) + late now)
  last_round rounds dt now last =
      let p = prompt now in
      (
        wait_for-suc late rounds dt now ∙ ground arith,
        omega arith,
        omega arith,
        (λ near. omega arith),
      )

  -- Where sleeps overrun by `most` at the most, waiting for a moment ends after one round more
  -- than the whole days that are left, not before the moment and not before the start; and by
  -- twice `most` after the moment at the latest, if the start was no later than `most` after it.
  pub wait_for_ends :
      (rounds dt now : ℕ)
      → dt < now + suc rounds * one_day
      → (t : ℕ) × EndsAt late most (suc rounds) dt now t
  wait_for_ends zero dt now enough =
      (now + (dt - now) + late now, last_round 0 dt now (omega arith))
  wait_for_ends (suc rounds) dt now enough = elim (Bool-cases (ltb dt (now + one_day))) [
    | inl last ↦ (now + (dt - now) + late now, last_round (suc rounds) dt now (ground arith))
    | inr long ↦
        let p = prompt now in
        let (t, (waited, due, later, close)) =
          wait_for_ends rounds dt (now + one_day + late now) (ground arith) in
        (
          t,
          (
            wait_for-suc late (suc rounds) dt now
                ∙ ap
                    (λ b.
                      if b
                      then some (now + (dt - now) + late now)
                      else wait_for late (suc rounds) dt (now + one_day + late now))
                    long
                ∙ waited,
            due,
            omega arith,
            (λ near. close (ground arith)),
          ),
        )
  ]

next_day :
    (now : ℕ)
    → (now < get_next_execution_dt now)
      × (get_next_execution_dt now < now + 2 * one_day)
      × (get_next_execution_dt now / one_day ≡ now / one_day + 1)
      × (get_next_execution_dt now % one_day < 1000000)
unfolding get_next_execution_dt
next_day now = (omega arith, omega arith, omega arith, omega arith)

-- One moment on each day, from `day` on.
abbrev pub IsDaily : ℕ → List ℕ → Type 0
IsDaily day [] = ⊤
IsDaily day (t ∷ times) = (t / one_day ≡ day) × IsDaily (suc day) times

-- Both the overruns and the work of a day fit into it.
module _ (late work : ℕ → ℕ) (most busy : ℕ) (prompt : (now : ℕ) → late now ≤ most)
    (brief : (start : ℕ) → work start ≤ busy) (fits : 1000000 + 2 * most + busy ≤ one_day) where
  abbrev IsDue : (dt now : ℕ) → Type 0
  IsDue dt now = (now < dt) × (dt < now + 2 * one_day) × (dt % one_day < 1000000)

  reset_times-suc :
      (count dt now start : ℕ) (starts : List ℕ)
      → wait_for late 3 dt now ≡ some start
      → reset_times late work count
          (get_next_execution_dt (start + work start))
          (start + work start)
        ≡ some starts
      → reset_times late work (suc count) dt now ≡ some (start ∷ starts)
  unfolding reset_times
  reset_times-suc count dt now start starts waited run = cc

  reset_times-IsDaily :
      (count dt now : ℕ)
      → IsDue dt now
      → (starts : List ℕ) × (reset_times late work count dt now ≡ some starts)
        × (length starts ≡ count)
        × IsDaily (dt / one_day) starts
  unfolding reset_times
  reset_times-IsDaily zero dt now due = ([], refl, refl, tt)
  reset_times-IsDaily (suc count) dt now (future, soon, midnight) =
      let (start, (waited, due, later, close)) =
        wait_for_ends late most prompt 2 dt now (omega arith) in
      let near = close (omega arith) in
      let b = brief start in
      let done = start + work start in
      let (after, soon', same, midnight') = next_day done in
      let today : done / one_day ≡ dt / one_day = omega arith in
      let (starts, run, count_starts, daily) =
        reset_times-IsDaily count (get_next_execution_dt done) done (after, soon', midnight') in
      (
        start ∷ starts,
        reset_times-suc count dt now start starts waited run,
        ap suc count_starts,
        (omega arith, subst (λ d. IsDaily d starts) (omega arith) daily),
      )

  -- Once started, the coroutine resets the counters on every following day, once a day, for any
  -- number of days, where each sleep overruns by a bounded time, each reset takes a bounded time,
  -- and one second, two overruns and a reset fit into a day.
  pub start_reset_counters_coro-IsDaily :
      (count now : ℕ)
      → (starts : List ℕ) × (start_reset_counters_coro late work count now ≡ some starts)
        × (length starts ≡ count)
        × IsDaily (now / one_day + 1) starts
  unfolding start_reset_counters_coro
  start_reset_counters_coro-IsDaily count now =
      let (after, soon, same, midnight) = next_day now in
      subst
        (λ d.
          (starts : List ℕ) × (reset_times late work count (get_next_execution_dt now) now
            ≡ some starts)
          × (length starts ≡ count)
          × IsDaily d starts)
        same (reset_times-IsDaily count (get_next_execution_dt now) now (after, soon, midnight))
