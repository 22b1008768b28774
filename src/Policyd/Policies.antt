-- ===== src/Policyd/Policies.antt =====
-- decrement_limit, apply_policies and handle_connection of modoboa/policyd/core.py, one connection
-- served at a time.
pub mod Exact
pub mod Accounting
use mrt_post_office.Prelude.{
  Bool, true, false, Option, none, some, List, [], ◌∷◌, ◌++◌, Text, if◌then◌else◌, ◌==◌, text_eq,
}
use mrt_post_office.Prelude.Int.{ℤ, pos, negsuc, leb_ℤ}
use mrt_post_office.Prelude.Chars.{codes}
use mrt_post_office.Prelude.Dict.{Dict, lookup}
use mrt_post_office.Prelude.Result.{Result, ok, err}
use mrt_post_office.EmailUtils.Split.{split_mailbox}
use mrt_post_office.Policyd.Redis.{Redis}
use mrt_post_office.Policyd.Request.{read_attributes}

-- SUCCESS_ACTION and FAILURE_ACTION
pub data Action : Type 0 where
  success failure : Action

abbrev pub action_text : Action → Text
action_text success = codes "dunno"
action_text failure = codes "defer_if_permit Daily limit reached, retry later"

-- the client library refuses a key that is `None`; `int(None)` is a type error
pub data Error : Type 0 where
  data_error type_error : Error

pub data LimitType : Type 0 where
  domain account : LimitType

-- what the two tests find out about a key
pub data Check : Type 0 where
  missing spent left : Check

-- The counters, and the calls of `notify_limit_reached` that were scheduled
pub record Daemon (r : Redis) : Type 0 where
  pub hash : r.Hash
  pub notices : List (LimitType × Text)

-- `await hexists(...)`, `await hget(...)` and `int(counter) <= 0`
abbrev pub check_value : Option ℤ → Result Error Check
check_value none = err type_error
check_value (some counter) = if leb_ℤ counter (pos 0) then ok spent else ok left

abbrev pub is_rcpt : Dict Text Text → Bool
is_rcpt attributes = elim (lookup (codes "protocol_state") attributes) [
  | none ↦ false
  | some state ↦ state == codes "RCPT"
]

-- the bytes written to the connection
abbrev pub reply : Result Error Action → Result Error Text
reply (ok action) = ok (codes "action=" ++ (action_text action ++ (10 ∷ 10 ∷ [])))
reply (err e) = err e

module _ (r : Redis) where
  open r use {Hash, hget, hexists, hincrby}

  unfoldable pub check : Option Text → Hash → Result Error Check
  check none h = err data_error
  check (some key) h = if hexists key h then check_value (hget key h) else ok missing

  unfoldable pub decrement_limit : LimitType → Text → Daemon r → Daemon r
  decrement_limit ltype name s =
      let (counter, h) = hincrby name (negsuc 0) s.hash in
      record s {
        hash = h;
        notices = if leb_ℤ counter (pos 0) then s.notices ++ (ltype, name) ∷ [] else s.notices;
      }

  -- `if decr_domain:`, `if decr_user:`
  abbrev pub decrement_if : Check → LimitType → Option Text → Daemon r → Daemon r
  decrement_if left ltype (some name) s = decrement_limit ltype name s
  decrement_if _ ltype name s = s

  -- after both tests
  abbrev pub finish :
      Check → Option Text → Result Error Check → Text → Daemon r → Result Error Action × Daemon r
  finish on_domain domain' (err e) username s = (err e, s)
  finish on_domain domain' (ok spent) username s = (ok failure, s)
  finish on_domain domain' (ok on_user) username s = (
    ok success,
    decrement_if on_user account (some username) (decrement_if on_domain domain domain' s),
  )

  abbrev pub after_domain :
      Result Error Check → Option Text → Text → Daemon r → Result Error Action × Daemon r
  after_domain (err e) domain' username s = (err e, s)
  after_domain (ok spent) domain' username s = (ok failure, s)
  after_domain (ok on_domain) domain' username s =
      finish on_domain domain' (check (some username) s.hash) username s

  -- the sender is authenticated
  unfoldable pub apply_to : Text → Daemon r → Result Error Action × Daemon r
  apply_to username s =
      let (_, domain') = split_mailbox username in
      after_domain (check domain' s.hash) domain' username s

  -- `if not sasl_username`
  abbrev pub apply_unless_empty : Option Text → Daemon r → Result Error Action × Daemon r
  apply_unless_empty none s = (ok success, s)
  apply_unless_empty (some []) s = (ok success, s)
  apply_unless_empty (some (c ∷ username)) s = apply_to (c ∷ username) s

  unfoldable pub apply_policies : Dict Text Text → Daemon r → Result Error Action × Daemon r
  apply_policies attributes s = apply_unless_empty (lookup (codes "sasl_username") attributes) s

  -- `none` is an incomplete read; an exception leaves the connection without an answer
  unfoldable pub handle_connection : Option Text → Daemon r → Result Error Text × Daemon r
  unfolding read_attributes
  handle_connection none s = (reply (ok success), s)
  handle_connection (some text) s =
      let (action, s') = apply_policies (read_attributes text) s in
      if is_rcpt (read_attributes text) then (reply action, s') else (reply (ok success), s)
