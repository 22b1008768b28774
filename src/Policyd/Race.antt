-- ===== src/Policyd/Race.antt =====
-- The coroutines of modoboa/policyd/core.py interleaved: `apply_policies` gives way to other
-- connections at every `await` on the Redis client, so it is a sequence of steps here.
pub mod Alone
pub mod Overshoot
use mrt_post_office.Prelude.{
  ℕ, zero, suc, ◌+◌, ◌≡◌, refl, ap, subst, sym, ◌≢◌, Bool, true, false, Option, none, some, List,
  [], ◌∷◌, ◌++◌, Text, arith, if◌then◌else◌, ◌==◌, text_eq, ==_refl, is_some, get_or,
}
use mrt_post_office.Prelude.Int.{ℤ, pos, negsuc, leb_ℤ, ◌+ℤ◌, ◌-ℤ◌, int_laws}
use mrt_post_office.Prelude.Result.{Result, ok, err}
use mrt_post_office.EmailUtils.Split.{split_mailbox}
use mrt_post_office.Policyd.Redis.{Redis}
use mrt_post_office.Policyd.Policies.{
  Action, success, failure, Error, data_error, Check, missing, spent, left, LimitType, domain,
  account, Daemon, check, check_value, decrement_limit, decrement_if, finish, after_domain,
  apply_to,
}

-- Where a connection waits: before `hexists` and `hget` of the domain and of the account, before the
-- two decrements, or at its end
pub data Conn : Type 0 where
  domain_exists domain_get : Conn
  user_exists user_get : Check → Conn
  domain_decrement user_decrement : Check → Conn
  finished : Result Error Action → Conn

module _ (r : Redis) (username : Text) (domain' : Option Text) where
  open r use {hget, hexists}

  -- `if decr_user:`
  abbrev pub before_user_decrement : Check → Conn
  before_user_decrement left = user_decrement left
  before_user_decrement _ = finished (ok success)

  -- `if decr_domain:`
  abbrev pub before_decrements : Check → Check → Conn
  before_decrements left on_user = domain_decrement on_user
  before_decrements _ on_user = before_user_decrement on_user

  abbrev pub after_domain_get : Result Error Check → Conn
  after_domain_get (err e) = finished (err e)
  after_domain_get (ok spent) = finished (ok failure)
  after_domain_get (ok on_domain) = user_exists on_domain

  abbrev pub after_user_get : Check → Result Error Check → Conn
  after_user_get on_domain (err e) = finished (err e)
  after_user_get on_domain (ok spent) = finished (ok failure)
  after_user_get on_domain (ok on_user) = before_decrements on_domain on_user

  abbrev pub domain_exists_step : Option Text → Daemon r → Conn
  domain_exists_step none s = finished (err data_error)
  domain_exists_step (some d) s = if hexists d s.hash then domain_get else user_exists missing

  abbrev pub domain_get_step : Option Text → Daemon r → Conn
  domain_get_step none s = finished (err data_error)
  domain_get_step (some d) s = after_domain_get (check_value (hget d s.hash))

  -- one await
  unfoldable pub step : Conn → Daemon r → Conn × Daemon r
  step domain_exists s = (domain_exists_step domain' s, s)
  step domain_get s = (domain_get_step domain' s, s)
  step (user_exists on_domain) s = (
    (if hexists username s.hash then user_get on_domain else before_decrements on_domain missing),
    s,
  )
  step (user_get on_domain) s = (after_user_get on_domain (check_value (hget username s.hash)), s)
  step (domain_decrement on_user) s =
      (before_user_decrement on_user, decrement_if r left domain domain' s)
  step (user_decrement on_user) s = (finished (ok success), decrement_limit r account username s)
  step (finished action) s = (finished action, s)

  -- the connection alone, for a number of steps
  unfoldable pub run : ℕ → Conn → Daemon r → Conn × Daemon r
  run zero conn s = (conn, s)
  run (suc n) conn s = let (conn', s') = step conn s in run n conn' s'

  -- every connection of a list makes one step, in turn
  unfoldable pub round : List Conn → Daemon r → List Conn × Daemon r
  round [] s = ([], s)
  round (conn ∷ conns) s =
      let (conn', s1) = step conn s in let (conns', s2) = round conns s1 in (conn' ∷ conns', s2)

  unfoldable pub rounds : ℕ → List Conn → Daemon r → List Conn × Daemon r
  rounds zero conns s = (conns, s)
  rounds (suc n) conns s = let (conns', s') = round conns s in rounds n conns' s'
