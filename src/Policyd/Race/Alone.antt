-- ===== src/Policyd/Race/Alone.antt =====
-- A connection that no other interrupts does what `apply_policies` does.
use mrt_post_office.Prelude.{
  ℕ, zero, suc, ◌≡◌, refl, Bool, true, false, Option, none, some, Text, if◌then◌else◌, Bool-cases,
  inl, inr, [], ◌∷◌, ◌≢◌, ap, sym, ◌∙◌, ◌==◌, ◌||◌, text_eq,
}
use mrt_post_office.Prelude.Chars.{codes}
use mrt_post_office.Prelude.Result.{Result, ok, err}
use mrt_post_office.EmailUtils.Split.{split_mailbox}
use mrt_post_office.Policyd.Redis.{Redis}
use mrt_post_office.Policyd.Policies.{
  Action, success, failure, Error, Check, missing, spent, left, domain, account, Daemon, check,
  check_value, decrement_if, finish, after_domain, apply_to, apply_policies,
}
use mrt_post_office.Policyd.Policies.Exact.{
  is_blocked, minus_one, apply_policies_action, apply_policies_counters,
}
use mrt_post_office.Policyd.Race.{
  Conn, domain_exists, domain_get, user_exists, finished, before_decrements, after_user_get,
  after_domain_get, step, run,
}

module _ (r : Redis) where
  abbrev ended : Result Error Action × Daemon r → Conn × Daemon r
  ended (action, s) = (finished action, s)

  module _ (u : Text) (d : Option Text) where
    run-finished :
        (n : ℕ) (a : Result Error Action) (s : Daemon r)
        → run r u d n (finished a) s ≡ (finished a, s)
    unfolding run step
    run-finished zero a s = refl
    run-finished (suc n) a s = run-finished n a s

    run-before_decrements :
        (n : ℕ) (c c' : Check) (s : Daemon r)
        → run r u d (suc (suc n)) (before_decrements r u d c c') s ≡ (
          finished (ok success),
          decrement_if r c' account (some u) (decrement_if r c domain d s),
        )
    unfolding run step
    run-before_decrements n left left s = run-finished n _ _
    run-before_decrements n left _ s = run-finished (suc n) _ _
    run-before_decrements n _ left s = run-finished (suc n) _ _
    run-before_decrements n _ _ s = run-finished (suc (suc n)) _ _

    run-after_user_get :
        (n : ℕ) (c : Check) (result : Result Error Check) (s : Daemon r)
        → run r u d (suc (suc n)) (after_user_get r u d c result) s
          ≡ ended (finish r c d result u s)
    run-after_user_get n c (err e) s = run-finished (suc (suc n)) (err e) s
    run-after_user_get n c (ok spent) s = run-finished (suc (suc n)) (ok failure) s
    run-after_user_get n c (ok missing) s = run-before_decrements n c missing s
    run-after_user_get n c (ok left) s = run-before_decrements n c left s

    run-user_exists :
        (n : ℕ) (c : Check) (s : Daemon r)
        → run r u d (suc (suc (suc (suc n)))) (user_exists c) s
          ≡ ended (finish r c d (check r (some u) s.hash) u s)
    unfolding check run step
    run-user_exists n c s = elim (Bool-cases (r.hexists u s.hash)) [
      | inl e ↦ rw e (run-after_user_get n c (check_value (r.hget u s.hash)) s)
      | inr e ↦ rw e (run-before_decrements (suc n) c missing s)
    ]

    run-after_domain_get :
        (n : ℕ) (result : Result Error Check) (s : Daemon r)
        → run r u d (suc (suc (suc (suc n)))) (after_domain_get r u d result) s
          ≡ ended (after_domain r result d u s)
    run-after_domain_get n (err e) s = run-finished _ (err e) s
    run-after_domain_get n (ok spent) s = run-finished _ (ok failure) s
    run-after_domain_get n (ok missing) s = run-user_exists n missing s
    run-after_domain_get n (ok left) s = run-user_exists n left s

  run-domain_get :
      (n : ℕ) (u d : Text) (s : Daemon r)
      → run r u (some d) (suc (suc (suc (suc (suc n))))) domain_get s
        ≡ ended (after_domain r (check_value (r.hget d s.hash)) (some d) u s)
  unfolding run step
  run-domain_get n u d s = run-after_domain_get u (some d) n (check_value (r.hget d s.hash)) s

  after-domain_exists :
      (u d : Text) (s : Daemon r) (found : Bool)
      → run r u (some d) 5 (if found then domain_get else user_exists missing) s
        ≡ ended (
            after_domain r
              (if found then check_value (r.hget d s.hash) else ok missing)
              (some d)
              u
              s)
  after-domain_exists u d s true = run-domain_get 0 u d s
  after-domain_exists u d s false = run-user_exists u (some d) 1 missing s

  run-domain_exists :
      (u : Text) (d : Option Text) (s : Daemon r)
      → run r u d 6 domain_exists s ≡ ended (after_domain r (check r d s.hash) d u s)
  unfolding check step run
  run-domain_exists u none s = run-finished u none 5 _ s
  run-domain_exists u (some d) s = after-domain_exists u d s (r.hexists d s.hash)

  run-apply_to :
      (username : Text) (s : Daemon r)
      → run r username (split_mailbox username).1 6 domain_exists s
        ≡ (finished (apply_to r username s).0, (apply_to r username s).1)
  unfolding apply_to
  run-apply_to username s = run-domain_exists username (split_mailbox username).1 s

  -- The connection of an authenticated sender with a domain that no other interrupts is through
  -- after six steps: it is refused if the counter of the domain or of the account is at zero or
  -- below, and no counter changes then; otherwise it is let through, and the counters of the two,
  -- where they exist, are one lower and no other changes.
  pub run_alone :
      (s : Daemon r) (username local_part domain' key : Text)
      → username ≢ []
      → split_mailbox username ≡ (local_part, some domain')
      → ((run r username (some domain') 6 domain_exists s).0
          ≡ finished (ok (if is_blocked r s.hash domain' username then failure else success)))
        × (r.hget key (run r username (some domain') 6 domain_exists s).1.hash ≡ (
            if is_blocked r s.hash domain' username
            then r.hget key s.hash
            else if domain' == key || username == key
            then minus_one (r.hget key s.hash)
            else r.hget key s.hash))
  unfolding apply_policies
  run_alone s [] l d key ne f = absurd (ne refl)
  run_alone s (c ∷ username) l d key ne f =
      let request = (codes "sasl_username", c ∷ username) ∷ [] in
      let through =
        ap (λ (x : Text × Option Text). run r (c ∷ username) x.1 6 domain_exists s) (sym f)
        ∙ run-apply_to (c ∷ username) s in
      (
        ap (λ (x : Conn × Daemon r). x.0) through
            ∙ ap finished (apply_policies_action r request s (c ∷ username) l d refl ne f),
        ap (λ (x : Conn × Daemon r). r.hget key x.1.hash) through
            ∙ apply_policies_counters r request s (c ∷ username) l d key refl ne f,
      )
