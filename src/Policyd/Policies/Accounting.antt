-- ===== src/Policyd/Policies/Accounting.antt =====
-- How many messages a limit lets through, over any sequence of requests between two resets.
use mrt_post_office.Prelude.{
  ℕ, ◌+◌, ◌-◌, ◌≤◌, ◌≡◌, refl, ◌≢◌, Bool, true, false, ◌&&◌, Option, none, some, List, [], ◌∷◌,
  ◌++◌, Text, arith, if◌then◌else◌, ◌==◌, text_eq, nat_eq, ==_iff, subst, sym, ap, ==_ne,
}
use mrt_post_office.Prelude.Int.{ℤ, pos, ◌+ℤ◌}
use mrt_post_office.Prelude.Chars.{codes, has_char}
use mrt_post_office.Prelude.Dict.{Dict, lookup}
use mrt_post_office.Prelude.Result.{Result, ok}
use mrt_post_office.EmailUtils.Split.{split_mailbox}
use mrt_post_office.EmailUtils.Join.{IsSplit, split_address-IsSplit}
use mrt_post_office.Policyd.Redis.{Redis}
use mrt_post_office.Policyd.Policies.{
  Action, success, Error, Daemon, check, apply_policies, apply_to,
}
use mrt_post_office.Policyd.Policies.Exact.{
  minus_one, is_spent, apply_policies_action, apply_policies_counters,
}

abbrev pub sender : Dict Text Text → Option Text
sender attributes = lookup (codes "sasl_username") attributes

abbrev is_success : Result Error Action → Bool
is_success (ok success) = true
is_success _ = false

abbrev is_sender : Text → Option Text → Bool
is_sender username none = false
is_sender username (some other) = other == username

has_at : (l d : Text) → has_char b'@' (l ++ b'@' ∷ d) ≡ true
has_at [] d = refl
has_at (x ∷ l) d = ground (arith, has_at l d)

after_request :
    (n : ℕ) (g : Bool) (before after : Option ℤ)
    → before ≡ some (pos n)
    → after ≡ (if g then minus_one before else before)
    → (g && is_spent before) ≡ false
    → (after ≡ some (pos (n - (if g then 1 else 0)))) × ((if g then 1 else 0) ≤ n)
unfolding ◌+ℤ◌
after_request n true before after h e f = ground arith
after_request n false before after h e f = ground arith

module _ (r : Redis) where
  open r use {hget}

  unfoldable pub serve_all : List (Dict Text Text) → Daemon r → Daemon r
  serve_all [] s = s
  serve_all (attributes ∷ requests) s = serve_all requests (apply_policies r attributes s).1

  -- the request is from the account, and is let through
  abbrev pub is_granted : Text → Dict Text Text → Daemon r → Bool
  is_granted username attributes s =
      is_sender username (sender attributes) && is_success (apply_policies r attributes s).0

  -- the number of the account's messages that are let through
  unfoldable pub granted : Text → List (Dict Text Text) → Daemon r → ℕ
  granted username [] s = 0
  granted username (attributes ∷ requests) s =
      (if is_granted username attributes s then 1 else 0)
      + granted username requests (apply_policies r attributes s).1

  -- one request's effect on the counter of an account: it counts down by one exactly if the request
  -- is a message of the account that is let through, and then it was not spent
  abbrev Charges : Text → Dict Text Text → Daemon r → Type 0
  Charges u attributes s =
      (hget u (apply_policies r attributes s).1.hash
        ≡ (if is_granted u attributes s then minus_one (hget u s.hash) else hget u s.hash))
      × ((is_granted u attributes s && is_spent (hget u s.hash)) ≡ false)

  module _ (u : Text) (at : has_char b'@' u ≡ true) where
    domain-ne_account : (v l d : Text) → split_mailbox v ≡ (l, some d) → d ≢ u
    unfolding split_mailbox
    domain-ne_account v l d e same =
        let h = subst (IsSplit v) e (split_address-IsSplit v) in cc (h.1, at, same)

    Charges-domain :
        (attributes : Dict Text Text) (s : Daemon r) (v l d : Text)
        → sender attributes ≡ some v
        → v ≢ []
        → split_mailbox v ≡ (l, some d)
        → Charges u attributes s
    Charges-domain attributes s v l d e ne f = ground (
      arith,
      apply_policies_action r attributes s v l d e ne f,
      apply_policies_counters r attributes s v l d u e ne f,
      ==_iff d u,
      ==_iff v u,
      domain-ne_account v l d f,
    )

    -- without a domain the request fails and changes nothing
    Charges-no_domain :
        (attributes : Dict Text Text) (s : Daemon r) (c : ℕ) (v l : Text)
        → sender attributes ≡ some (c ∷ v)
        → split_mailbox (c ∷ v) ≡ (l, none)
        → Charges u attributes s
    unfolding apply_policies apply_to check
    Charges-no_domain attributes s c v l e f = rw (e, f) (ground arith, ground arith)

    Charges-anonymous :
        (attributes : Dict Text Text) (s : Daemon r)
        → sender attributes ≡ none
        → Charges u attributes s
    unfolding apply_policies
    Charges-anonymous attributes s e = rw e (refl, refl)

    Charges-empty :
        (attributes : Dict Text Text) (s : Daemon r)
        → sender attributes ≡ some []
        → Charges u attributes s
    unfolding apply_policies
    Charges-empty attributes s e =
        let differ : ([] == u) ≡ false =
          ==_ne [] u (λ p. cc (subst (λ w. has_char b'@' w ≡ true) (sym p) at)) in
        rw e (rw differ (refl, refl))

    -- where the sender's address has a domain or not
    Charges-split :
        (attributes : Dict Text Text) (s : Daemon r) (c : ℕ) (v : Text) (parts : Text × Option Text)
        → sender attributes ≡ some (c ∷ v)
        → split_mailbox (c ∷ v) ≡ parts
        → Charges u attributes s
    Charges-split attributes s c v (l, none) e f = Charges-no_domain attributes s c v l e f
    Charges-split attributes s c v (l, some d) e f =
        Charges-domain attributes s (c ∷ v) l d e (λ h. cc h) f

    Charges-sender :
        (attributes : Dict Text Text) (s : Daemon r) (name : Option Text)
        → sender attributes ≡ name
        → Charges u attributes s
    Charges-sender attributes s none e = Charges-anonymous attributes s e
    Charges-sender attributes s (some []) e = Charges-empty attributes s e
    Charges-sender attributes s (some (c ∷ v)) e =
        Charges-split attributes s c v (split_mailbox (c ∷ v)) e refl

    Charges-request : (attributes : Dict Text Text) (s : Daemon r) → Charges u attributes s
    Charges-request attributes s = Charges-sender attributes s (sender attributes) refl

    -- For an account whose name has an "@": from a counter of n, any requests, of this account
    -- and of others, served one after another, let at most n messages of the account through, and
    -- the counter ends at n less the number let through.
    pub granted-le-limit :
        (requests : List (Dict Text Text)) (s : Daemon r) (n : ℕ)
        → hget u s.hash ≡ some (pos n)
        → (granted u requests s ≤ n)
          × (hget u (serve_all requests s).hash ≡ some (pos (n - granted u requests s)))
    unfolding granted serve_all
    granted-le-limit [] s n h = (omega arith, rw h (ap (λ k. some (pos k)) (omega arith)))
    granted-le-limit (attributes ∷ requests) s n h =
        let (e, f) = Charges-request attributes s in
        let (after, room) =
          after_request n (is_granted u attributes s) (hget u s.hash)
            (hget u (apply_policies r attributes s).1.hash) h e f in
        let (fits, end) =
          granted-le-limit requests (apply_policies r attributes s).1
            (n - (if is_granted u attributes s then 1 else 0)) after in
        (omega arith, rw end (ap (λ k. some (pos k)) (omega arith)))
