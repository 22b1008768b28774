-- ===== src/Policyd/Redis/Memory.antt =====
-- A hash in memory: an instance of the interface, for the examples.
use mrt_post_office.Prelude.{◌≡◌, refl, some, Text, get_or, ◌==◌, text_eq, if◌then◌else◌}
use mrt_post_office.Prelude.Int.{ℤ, pos, ◌+ℤ◌}
use mrt_post_office.Policyd.Redis.{Redis}
use mrt_post_office.Prelude.Dict.{
  Dict, lookup, contains, insert, erase, lookup-insert, lookup-erase,
}

abbrev pub Memory : Type 0
Memory = Dict Text ℤ

abbrev pub increment : Text → ℤ → Memory → ℤ × Memory
increment k n h = (get_or (lookup k h) (pos 0) +ℤ n, insert k (get_or (lookup k h) (pos 0) +ℤ n) h)

pub hget-increment :
    (k j : Text) (n : ℤ) (h : Memory)
    → lookup j (increment k n h).1
      ≡ (if k == j then some (get_or (lookup k h) (pos 0) +ℤ n) else lookup j h)
hget-increment k j n h = lookup-insert k j (get_or (lookup k h) (pos 0) +ℤ n) h

abbrev pub memory : Redis
memory = record {
  Hash = Memory;
  hget = lookup;
  hexists = contains;
  hset = insert;
  hdel = erase;
  hincrby = increment;
  hexists-hget = λ k h. refl;
  hget-hset = lookup-insert;
  hget-hdel = lookup-erase;
  hincrby_result = λ k n h. refl;
  hget-hincrby = hget-increment;
}
