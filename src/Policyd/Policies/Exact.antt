-- ===== src/Policyd/Policies/Exact.antt =====
-- What `apply_policies` answers and what it does to the counters, on every branch.
use mrt_post_office.Prelude.{
  ◌≡◌, refl, ◌≢◌, Bool, false, ◌||◌, Option, none, some, [], ◌∷◌, Text, arith, if◌then◌else◌, ◌==◌,
  text_eq, ==_iff, subst, ap, length, length-append,
}
use mrt_post_office.Prelude.Int.{ℤ, pos, negsuc, leb_ℤ, ◌+ℤ◌}
use mrt_post_office.Prelude.Chars.{codes}
use mrt_post_office.Prelude.Dict.{Dict, lookup}
use mrt_post_office.Prelude.Result.{ok}
use mrt_post_office.EmailUtils.Split.{split_mailbox}
use mrt_post_office.EmailUtils.Join.{IsSplit, split_address-IsSplit}
use mrt_post_office.Policyd.Redis.{Redis}
use mrt_post_office.Policyd.Policies.{
  success, failure, LimitType, domain, account, Check, missing, spent, left, Daemon, apply_policies,
  check, decrement_limit, decrement_if, after_domain, apply_to,
}

-- the counter after one more message
abbrev pub minus_one : Option ℤ → Option ℤ
minus_one none = none
minus_one (some n) = some (n +ℤ negsuc 0)

abbrev pub verdict : Option ℤ → Check
verdict none = missing
verdict (some n) = if leb_ℤ n (pos 0) then spent else left

abbrev pub is_spent : Option ℤ → Bool
is_spent none = false
is_spent (some n) = leb_ℤ n (pos 0)

-- a key counts down only where its field exists and is not spent
abbrev charged : Option ℤ → Option ℤ
charged counter = if is_spent counter then counter else minus_one counter

-- The domain or the account has used up its messages.
abbrev pub is_blocked : (r : Redis) → r.Hash → Text → Text → Bool
is_blocked r h domain' username = is_spent (r.hget domain' h) || is_spent (r.hget username h)

module _ (r : Redis) where
  open r use {Hash, hget, hexists, hincrby, hexists-hget, hget-hincrby}

  check-verdict : (k : Text) (h : Hash) → check r (some k) h ≡ ok (verdict (hget k h))
  unfolding check
  check-verdict k h = ground (arith, hexists-hget k h)

  hget-decrement_if :
      (c : Check) (t : LimitType) (k j : Text) (s : Daemon r)
      → c ≡ verdict (hget k s.hash)
      → hget j (decrement_if r c t (some k) s).hash
        ≡ (if k == j then charged (hget k s.hash) else hget j s.hash)
  unfolding decrement_limit
  hget-decrement_if missing t k j s e = ground (arith, ==_iff k j)
  hget-decrement_if spent t k j s e = ground (arith, ==_iff k j)
  hget-decrement_if left t k j s e = rw hget-hincrby (ground (arith, ==_iff k j))

  after_domain_action :
      (d u : Text) (s : Daemon r)
      → (after_domain r (check r (some d) s.hash) (some d) u s).0
        ≡ ok (if is_blocked r s.hash d u then failure else success)
  after_domain_action d u s = ground (arith, check-verdict d s.hash, check-verdict u s.hash)

  module _ (d u : Text) (s : Daemon r) (ne : d ≢ u) where
    after_first : Check → Daemon r
    after_first on_domain = decrement_if r on_domain domain (some d) s

    hget-after_first :
        (c : Check) → c ≡ verdict (hget d s.hash) → hget u (after_first c).hash ≡ hget u s.hash
    unfolding after_first
    hget-after_first c e = ground (arith, hget-decrement_if c domain d u s e, ==_iff d u)

    hget-both :
        (j : Text) (c c' : Check)
        → c ≡ verdict (hget d s.hash)
        → c' ≡ verdict (hget u s.hash)
        → hget j (decrement_if r c' account (some u) (after_first c)).hash ≡ (
            if u == j
            then charged (hget u s.hash)
            else if d == j
            then charged (hget d s.hash)
            else hget j s.hash)
    unfolding after_first
    hget-both j c c' e f =
        rw (hget-decrement_if c' account u j (after_first c) (rw (hget-after_first c e) f))
          (ground (arith, hget-decrement_if c domain d j s e, hget-after_first c e))

  hget-after_domain :
      (d u j : Text) (s : Daemon r)
      → d ≢ u
      → hget j (after_domain r (check r (some d) s.hash) (some d) u s).1.hash ≡ (
          if is_blocked r s.hash d u
          then hget j s.hash
          else if d == j || u == j
          then minus_one (hget j s.hash)
          else hget j s.hash)
  unfolding after_first
  hget-after_domain d u j s ne = ground (
    arith,
    check-verdict d s.hash,
    check-verdict u s.hash,
    ==_iff d j,
    ==_iff u j,
    hget-both d u s ne j (verdict (hget d s.hash)) (verdict (hget u s.hash)) refl refl,
  )

-- a domain is shorter than an address that it was split off
domain-ne :
    (username local_part domain' : Text)
    → split_mailbox username ≡ (local_part, some domain')
    → domain' ≢ username
unfolding split_mailbox
domain-ne username local_part domain' e same =
    let h = subst (IsSplit username) e (split_address-IsSplit username) in
    omega (arith, length-append {0} local_part (b'@' ∷ domain'), ap length (h.0), ap length same)

module _ (r : Redis) where
  open r use {hget}

  -- For an authenticated sender with a domain, the answer is the failure action exactly when the
  -- counter of the domain or of the account exists and is not positive.
  pub apply_policies_action :
      (attributes : Dict Text Text) (s : Daemon r) (username local_part domain' : Text)
      → lookup (codes "sasl_username") attributes ≡ some username
      → username ≢ []
      → split_mailbox username ≡ (local_part, some domain')
      → (apply_policies r attributes s).0
        ≡ ok (if is_blocked r s.hash domain' username then failure else success)
  unfolding apply_policies apply_to
  apply_policies_action attributes s [] l d e ne f = absurd (ne refl)
  apply_policies_action attributes s (c ∷ username) l d e ne f =
      rw (e, f) (after_domain_action r d (c ∷ username) s)

  -- For an authenticated sender with a domain, a refused request changes no counter; an accepted
  -- one takes one from the counters of the domain and of the account, where they exist, and
  -- changes no other.
  pub apply_policies_counters :
      (attributes : Dict Text Text) (s : Daemon r) (username local_part domain' key : Text)
      → lookup (codes "sasl_username") attributes ≡ some username
      → username ≢ []
      → split_mailbox username ≡ (local_part, some domain')
      → hget key (apply_policies r attributes s).1.hash ≡ (
          if is_blocked r s.hash domain' username
          then hget key s.hash
          else if domain' == key || username == key
          then minus_one (hget key s.hash)
          else hget key s.hash)
  unfolding apply_policies apply_to
  apply_policies_counters attributes s [] l d key e ne f = absurd (ne refl)
  apply_policies_counters attributes s (c ∷ username) l d key e ne f =
      rw (e, f) (hget-after_domain r d (c ∷ username) key s (domain-ne (c ∷ username) l d f))
