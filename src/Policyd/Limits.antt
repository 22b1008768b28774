-- ===== src/Policyd/Limits.antt =====
-- set_message_limit of modoboa/policyd/handlers.py, get_message_counter of modoboa/policyd/utils.py
-- and the loops of reset_counters in modoboa/policyd/core.py.
use mrt_post_office.Prelude.{
  ℕ, ◌≡◌, refl, Bool, true, false, Option, none, some, List, [], ◌∷◌, Text, arith, if◌then◌else◌,
  text_eq, nat_eq, ==_iff, ==_refl, ==_ne, nat_eqb_iff, ap, ◌≢◌, nat_eqb, Bool-cases, inl, inr,
}
use mrt_post_office.Prelude.Int.{ℤ, pos, ◌+ℤ◌, ◌-ℤ◌, int_laws}
use mrt_post_office.Prelude.Dict.{lookup, IsDistinct}
use mrt_post_office.Policyd.Redis.{Redis}

-- `a == b` on two limits, `None` for no limit
abbrev pub same_limit : Option ℕ → Option ℕ → Bool
same_limit none none = true
same_limit none (some b) = false
same_limit (some a) none = false
same_limit (some a) (some b) = nat_eqb a b

module _ (r : Redis) where
  open r use {
    Hash, hget, hexists, hset, hdel, hincrby, hexists-hget, hget-hset, hget-hdel, hget-hincrby,
  }

  abbrev pub store_limit : Option ℕ → Option ℕ → Text → Hash → Hash
  store_limit old none key h = if hexists key h then hdel key h else h
  store_limit none (some limit) key h = (hincrby key (pos limit) h).1
  store_limit (some old) (some limit) key h = (hincrby key (pos limit -ℤ pos old) h).1

  -- the limit that was loaded from the database, the new one, and the key of the counter
  unfoldable pub set_message_limit : Option ℕ → Option ℕ → Text → Hash → Hash
  set_message_limit old limit key h =
      if same_limit old limit then h else store_limit old limit key h

  -- `value is None` is a missing counter
  unfoldable pub get_message_counter : Text → Hash → Option ℤ
  get_message_counter key h = hget key h

  -- `for ...: await rclient.hset(...)`
  unfoldable pub hset_all : List (Text × ℕ) → Hash → Hash
  hset_all [] h = h
  hset_all ((key, limit) ∷ limits) h = hset_all limits (hset key (pos limit) h)

  -- The counter is the limit less the messages sent, and there is none without a limit.
  abbrev pub InStep : Option ℕ → ℕ → Option ℤ → Type 0
  InStep none sent counter = counter ≡ none
  InStep (some limit) sent counter = counter ≡ some (pos limit -ℤ pos sent)

  -- the messages that still count after a change: none where there was no limit before
  abbrev pub still_sent : Option ℕ → ℕ → ℕ
  still_sent none sent = 0
  still_sent (some _) sent = sent

  shift : (a b n : ℕ) → (pos a -ℤ pos n) +ℤ (pos b -ℤ pos a) ≡ pos b -ℤ pos n
  shift a b n = omega int_laws

  from_zero : (b : ℕ) → pos 0 +ℤ pos b ≡ pos b -ℤ pos 0
  from_zero b = omega int_laws

  -- Where the counter is the limit less the messages sent, and missing without a limit, it is so
  -- after the limit was changed, set for the first time or removed: what was sent stays taken off
  -- where there was a limit before.
  pub set_message_limit-InStep :
      (old limit : Option ℕ) (sent : ℕ) (key : Text) (h : Hash)
      → InStep old sent (hget key h)
      → InStep limit (still_sent old sent) (hget key (set_message_limit old limit key h))
  unfolding set_message_limit
  set_message_limit-InStep none none sent key h e = e
  set_message_limit-InStep none (some b) sent key h e =
      rw (hget-hincrby, ==_refl) (rw e (cc (from_zero b)))
  set_message_limit-InStep (some a) none sent key h e =
      ground (arith, hexists-hget key h, hget-hdel key key h, ==_iff key key)
  set_message_limit-InStep (some a) (some b) sent key h e = elim (Bool-cases (nat_eqb a b)) [
    | inl same ↦ rw same (rw (← ((nat_eqb_iff a b).0 same)) e)
    | inr differ ↦ rw differ (rw (hget-hincrby, ==_refl) (rw e (ap some (shift a b sent))))
  ]

  -- A change of the limit of one key leaves every other counter alone.
  pub set_message_limit_others :
      (old limit : Option ℕ) (key other : Text) (h : Hash)
      → key ≢ other
      → hget other (set_message_limit old limit key h) ≡ hget other h
  unfolding set_message_limit
  set_message_limit_others none none key other h ne = refl
  set_message_limit_others none (some b) key other h ne = rw (hget-hincrby, ==_ne key other ne)
  set_message_limit_others (some a) none key other h ne =
      ground (arith, hget-hdel key other h, ==_ne key other ne)
  set_message_limit_others (some a) (some b) key other h ne =
      ground (arith, hget-hincrby key other (pos b -ℤ pos a) h, ==_ne key other ne)

  -- After the loops of a reset, a key with a limit has the whole limit left, and every other key
  -- has what it had.
  pub hget-hset_all :
      (limits : List (Text × ℕ)) (key : Text) (h : Hash)
      → IsDistinct limits
      → hget key (hset_all limits h)
        ≡ elim (lookup key limits) [ none ↦ hget key h | some limit ↦ some (pos limit) ]
  unfolding hset_all
  hget-hset_all [] key h d = refl
  hget-hset_all ((k, n) ∷ limits) key h d = ground (
    arith,
    hget-hset_all limits key (hset k (pos n) h) d.1,
    hget-hset k key (pos n) h,
    ==_iff k key,
  )
