-- ===== src/Policyd/Race/Overshoot.antt =====
-- Connections that are served at once can all pass the tests before the first of them counts down.
use mrt_post_office.Prelude.{
  ℕ, zero, suc, ◌≡◌, refl, ap, ◌∙◌, Option, none, some, List, [], ◌∷◌, Text, arith, text_eq,
  ==_refl,
}
use mrt_post_office.Prelude.Int.{ℤ, pos, negsuc, ◌+ℤ◌, ◌-ℤ◌, int_laws}
use mrt_post_office.Prelude.Result.{ok}
use mrt_post_office.Policyd.Redis.{Redis}
use mrt_post_office.Policyd.Policies.{success, missing, left, account, Daemon, decrement_limit}
use mrt_post_office.Policyd.Race.{
  Conn, domain_exists, user_exists, user_get, user_decrement, finished, step, round, rounds,
}

abbrev pub replicate : ℕ → Conn → List Conn
replicate zero c = []
replicate (suc n) c = c ∷ replicate n c

module _ (r : Redis) (u : Text) (d : Option Text) where
  open r use {hget, hexists, hexists-hget, hget-hincrby}

  round_still :
      (k : ℕ) (c c' : Conn) (s : Daemon r)
      → step r u d c s ≡ (c', s)
      → round r u d (replicate k c) s ≡ (replicate k c', s)
  unfolding round
  round_still zero c c' s e = refl
  round_still (suc k) c c' s e = rw (e, round_still k c c' s e)

  hget-decrement_limit :
      (s : Daemon r) (m : ℤ)
      → hget u s.hash ≡ some m
      → hget u (decrement_limit r account u s).hash ≡ some (m +ℤ negsuc 0)
  unfolding decrement_limit
  hget-decrement_limit s m e = rw (hget-hincrby, ==_refl, e)

  one_more : (m : ℤ) (k : ℕ) → (m +ℤ negsuc 0) -ℤ pos k ≡ m -ℤ pos (suc k)
  one_more m k = omega int_laws

  no_more : (m : ℤ) → m ≡ m -ℤ pos 0
  no_more m = omega int_laws

  round_decrement :
      (k : ℕ) (s : Daemon r) (m : ℤ)
      → hget u s.hash ≡ some m
      → ((round r u d (replicate k (user_decrement left)) s).0
          ≡ replicate k (finished (ok success)))
        × (hget u (round r u d (replicate k (user_decrement left)) s).1.hash ≡ some (m -ℤ pos k))
  unfolding round step
  round_decrement zero s m e = (refl, e ∙ ap some (no_more m))
  round_decrement (suc k) s m e =
      let (done, count) =
        round_decrement k (decrement_limit r account u s) (m +ℤ negsuc 0)
          (hget-decrement_limit s m e) in
      (ap (λ conns. finished (ok success) ∷ conns) done, count ∙ ap some (one_more m k))

module _ (r : Redis) (u d : Text) (s : Daemon r) where
  step-domain_exists :
      r.hget d s.hash ≡ none → step r u (some d) domain_exists s ≡ (user_exists missing, s)
  unfolding step
  step-domain_exists e = ground (arith, r.hexists-hget d s.hash)

  step-user_exists :
      (n : ℕ)
      → r.hget u s.hash ≡ some (pos (suc n))
      → step r u (some d) (user_exists missing) s ≡ (user_get missing, s)
  unfolding step
  step-user_exists n e = ground (arith, r.hexists-hget u s.hash)

  step-user_get :
      (n : ℕ)
      → r.hget u s.hash ≡ some (pos (suc n))
      → step r u (some d) (user_get missing) s ≡ (user_decrement left, s)
  unfolding step
  step-user_get n e = rw e (ground arith)

-- However small the positive counter of an account is, any number k of its connections that are
-- interleaved await by await are all let through, where its domain has no counter, and the
-- counter ends k lower, below zero for k large enough.
pub rounds-overshoot :
    (r : Redis) (u d : Text) (k n : ℕ) (s : Daemon r)
    → r.hget d s.hash ≡ none
    → r.hget u s.hash ≡ some (pos (suc n))
    → ((rounds r u (some d) 4 (replicate k domain_exists) s).0
        ≡ replicate k (finished (ok success)))
      × (r.hget u (rounds r u (some d) 4 (replicate k domain_exists) s).1.hash
          ≡ some (pos (suc n) -ℤ pos k))
unfolding rounds
rounds-overshoot r u d k n s e f =
    let first : step r u (some d) domain_exists s ≡ (user_exists missing, s) =
      step-domain_exists r u d s e in
    let second : step r u (some d) (user_exists missing) s ≡ (user_get missing, s) =
      step-user_exists r u d s n f in
    let third : step r u (some d) (user_get missing) s ≡ (user_decrement left, s) =
      step-user_get r u d s n f in
    rw
      (
        round_still r u (some d) k _ _ s first,
        round_still r u (some d) k _ _ s second,
        round_still r u (some d) k _ _ s third,
      )
      (round_decrement r u (some d) k s (pos (suc n)) f)
