-- ===== src/Policyd/Redis.antt =====
-- The Redis hash `messages_count` (modoboa/policyd/constants.py) as an interface: the commands that
-- modoboa/policyd calls on it and what the Redis documentation says of each. A field holds an
-- integer, as everything that the program writes there does.
pub mod Memory
use mrt_post_office.Prelude.{
  ◌≡◌, Bool, Option, none, some, Text, if◌then◌else◌, is_some, get_or, ◌==◌, text_eq,
}
use mrt_post_office.Prelude.Int.{ℤ, pos, ◌+ℤ◌}

pub record Redis : Type 1 where
  pub Hash : Type 0
  pub hget : Text → Hash → Option ℤ
  pub hexists : Text → Hash → Bool
  pub hset : Text → ℤ → Hash → Hash
  pub hdel : Text → Hash → Hash
  pub hincrby : Text → ℤ → Hash → ℤ × Hash
  pub hexists-hget : (k : Text) (h : Hash) → hexists k h ≡ is_some (hget k h)
  pub hget-hset :
      (k j : Text) (v : ℤ) (h : Hash) → hget j (hset k v h) ≡ (if k == j then some v else hget j h)
  pub hget-hdel : (k j : Text) (h : Hash) → hget j (hdel k h) ≡ (if k == j then none else hget j h)
  -- a field that is missing counts as 0
  pub hincrby_result :
      (k : Text) (n : ℤ) (h : Hash) → (hincrby k n h).0 ≡ get_or (hget k h) (pos 0) +ℤ n
  pub hget-hincrby :
      (k j : Text) (n : ℤ) (h : Hash)
      → hget j (hincrby k n h).1
        ≡ (if k == j then some (get_or (hget k h) (pos 0) +ℤ n) else hget j h)
