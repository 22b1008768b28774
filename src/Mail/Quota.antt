-- ===== src/Mail/Quota.antt =====
-- `Mailbox.set_quota` of modoboa/admin/models/mailbox.py and `Domain.allocated_quota` of
-- modoboa/admin/models/domain.py.
use mrt_post_office.Prelude.{
  ℕ, true, ◌+◌, ◌≤◌, ◌≡◌, refl, subst, Bool, not, ◌&&◌, Option, none, some, [], ◌∷◌, arith,
  if◌then◌else◌, ◌==◌, nat_eq, ltb, get_or, ◌⊎◌, inl, inr, ◌<◌, ⊤, if_either, ◌∙◌, sym,
  Option-cases,
}
use mrt_post_office.Prelude.Dict.{Dict, lookup, insert}
use mrt_post_office.Prelude.Result.{Result, ok, err}

pub data Error : Type 0 where
  quota_required domain_quota_exceeded : Error

-- A domain with the quotas of its mailboxes, by primary key, and the sum of them that this object
-- has cached, if any
pub record Domain : Type 0 where
  pub quota : ℕ
  pub default_mailbox_quota : ℕ
  pub mailbox_set : Dict ℕ ℕ
  pub cached : Option ℕ

pub record Mailbox : Type 0 where
  pub pk : ℕ
  pub quota : ℕ
  pub use_domain_quota : Bool

-- `aggregate(total=models.Sum("quota"))`
abbrev pub total : Dict ℕ ℕ → ℕ
total [] = 0
total ((_, quota) ∷ mailboxes) = quota + total mailboxes

abbrev pub computed_quota : Domain → ℕ
computed_quota d = if d.quota == 0 then 0 else total d.mailbox_set

-- a cached property: computed by the first call, and kept by the object
unfoldable pub allocated_quota : Domain → ℕ × Domain
allocated_quota d = elim d.cached [
  | none ↦ (computed_quota d, record d { cached = some (computed_quota d) })
  | some sum ↦ (sum, d)
]

-- the value, or the default one
abbrev pub wanted : Option ℕ → Domain → Mailbox → ℕ
wanted (some value) d m = value
wanted none d m = if m.use_domain_quota then d.default_mailbox_quota else 0

-- `quota_usage - old_quota + quota > self.domain.quota`, with the subtraction on the other side
abbrev pub is_exceeded : (old quota usage limit : ℕ) → Bool
is_exceeded old quota usage limit = ltb (limit + old) (usage + quota)

abbrev pub check_usage : (old quota limit : ℕ) → ℕ × Domain → Option Error × Domain
check_usage old quota limit read =
    (if is_exceeded old quota read.0 limit then some domain_quota_exceeded else none, read.1)

-- The exception, if any, and the domain, which may have cached the sum.
abbrev pub check_quota : ℕ → ℕ → Bool → Domain → Option Error × Domain
check_quota old quota override_rules d =
    if quota == 0
    then (if not (d.quota == 0) && not override_rules then some quota_required else none, d)
    else if not (d.quota == 0) && ltb old quota
    then check_usage old quota d.quota (allocated_quota d)
    else (none, d)

abbrev pub or_mailbox : Option Error → Mailbox → Result Error Mailbox
or_mailbox none m = ok m
or_mailbox (some e) m = err e

unfoldable pub set_quota : Option ℕ → Bool → Domain → Mailbox → Result Error Mailbox × Domain
set_quota value override_rules d m =
    let (problem, d') = check_quota m.quota (wanted value d m) override_rules d in
    (or_mailbox problem (record m { quota = wanted value d m }), d')

-- the row of the mailbox after `save`; the object of the domain keeps what it has cached
abbrev pub save : Mailbox → Domain → Domain
save m d = record d { mailbox_set = insert m.pk m.quota d.mailbox_set }

-- What is cached, if anything, is the sum.
abbrev pub IsFresh : Domain → Type 0
IsFresh d = (d.cached ≡ none) ⊎ (d.cached ≡ some (computed_quota d))

-- Every mailbox has a quota, where 0 stands for none.
abbrev pub AllLimited : Dict ℕ ℕ → Type 0
AllLimited [] = ⊤
AllLimited ((_, quota) ∷ mailboxes) = (0 < quota) × AllLimited mailboxes

-- The domain has no quota, or each mailbox has one and together they have no more than the domain.
abbrev pub FitsIn : (limit : ℕ) → Dict ℕ ℕ → Type 0
FitsIn limit mailboxes = (limit ≡ 0) ⊎ (AllLimited mailboxes × (total mailboxes ≤ limit))

abbrev pub Fits : Domain → Type 0
Fits d = FitsIn d.quota d.mailbox_set

total-insert :
    (k v : ℕ) (mailboxes : Dict ℕ ℕ)
    → total (insert k v mailboxes) + get_or (lookup k mailboxes) 0 ≡ total mailboxes + v
total-insert k v [] = omega arith
total-insert k v ((j, w) ∷ mailboxes) = ground (arith, total-insert k v mailboxes)

AllLimited-insert :
    (k v : ℕ) (mailboxes : Dict ℕ ℕ)
    → 0 < v
    → AllLimited mailboxes
    → AllLimited (insert k v mailboxes)
AllLimited-insert k v [] positive limited = (positive, tt)
AllLimited-insert k v ((j, w) ∷ mailboxes) positive (here, rest) =
    if_either (j == k)
      (λ b. AllLimited (if b then (j, v) ∷ mailboxes else (j, w) ∷ insert k v mailboxes))
      (positive, rest) (here, AllLimited-insert k v mailboxes positive rest)

-- A check changes nothing but the cache.
allocated_quota-rows :
    (d : Domain)
    → ((allocated_quota d).1.quota ≡ d.quota) × ((allocated_quota d).1.mailbox_set ≡ d.mailbox_set)
unfolding allocated_quota
allocated_quota-rows d = elim (Option-cases d.cached) [
  | inl e ↦ rw e (refl, refl)
  | inr (sum, e) ↦ rw e (refl, refl)
]

fresh_usage : (d : Domain) → IsFresh d → (allocated_quota d).0 ≡ computed_quota d
unfolding allocated_quota
fresh_usage d (inl e) = rw e refl
fresh_usage d (inr e) = rw e refl

check_quota-rows :
    (old new : ℕ) (override_rules : Bool) (d : Domain)
    → ((check_quota old new override_rules d).1.quota ≡ d.quota)
      × ((check_quota old new override_rules d).1.mailbox_set ≡ d.mailbox_set)
check_quota-rows old new override_rules d =
    ground (arith, (allocated_quota-rows d).0, (allocated_quota-rows d).1)

-- What a quota that passes leaves
check_quota-room :
    (old new : ℕ) (override_rules : Bool) (d : Domain)
    → IsFresh d
    → (check_quota old new override_rules d).0 ≡ none
    → (d.quota ≡ 0)
      ⊎ (((new ≡ 0) × (override_rules ≡ true))
          ⊎ ((0 < new) × ((new ≤ old) ⊎ (total d.mailbox_set + new ≤ d.quota + old))))
check_quota-room old new override_rules d fresh h = ground (arith, fresh_usage d fresh)

-- The rows after the check fit where there is room.
fits_after :
    (limit k old new : ℕ) (mailboxes : Dict ℕ ℕ)
    → get_or (lookup k mailboxes) 0 ≡ old
    → FitsIn limit mailboxes
    → (limit ≡ 0) ⊎ ((0 < new) × ((new ≤ old) ⊎ (total mailboxes + new ≤ limit + old)))
    → FitsIn limit (insert k new mailboxes)
fits_after limit k old new mailboxes e (inl none') room = inl none'
fits_after limit k old new mailboxes e (inr fit) (inl none') = inl none'
fits_after limit k old new mailboxes e (inr (limited, fit)) (inr (positive, room)) =
    inr (AllLimited-insert k new mailboxes positive limited, within room)
  where
    within :
        (new ≤ old) ⊎ (total mailboxes + new ≤ limit + old) → total (insert k new mailboxes) ≤ limit
    within (inl less) = omega (arith, total-insert k new mailboxes, less, fit, e)
    within (inr room) = omega (arith, total-insert k new mailboxes, room, fit, e)

saved_fits :
    (limit limit' k v : ℕ) (rows rows' : Dict ℕ ℕ)
    → limit' ≡ limit
    → rows' ≡ rows
    → FitsIn limit (insert k v rows)
    → FitsIn limit' (insert k v rows')
saved_fits limit limit' k v rows rows' e f h =
    subst (λ l. FitsIn l (insert k v rows')) (sym e)
      (subst (λ r. FitsIn limit (insert k v r)) (sym f) h)

or_mailbox-eq :
    (problem : Option Error) (m m' : Mailbox)
    → or_mailbox problem m ≡ ok m'
    → (problem ≡ none) × (m ≡ m')
or_mailbox-eq none m m' h = (refl, cc)
or_mailbox-eq (some e) m m' h = cc

-- A quota that is accepted for a mailbox, its stored quota being the one that was loaded and the
-- sum that the object of the domain has cached, if any, being true: where the domain had no
-- quota, or each of its mailboxes had one and together no more than the domain, it is so once the
-- mailbox is saved, unless the rules were overridden to leave the mailbox without a quota.
pub set_quota-Fits :
    (value : Option ℕ) (override_rules : Bool) (d : Domain) (m m' : Mailbox)
    → get_or (lookup m.pk d.mailbox_set) 0 ≡ m.quota
    → IsFresh d
    → Fits d
    → (set_quota value override_rules d m).0 ≡ ok m'
    → Fits (save m' (set_quota value override_rules d m).1)
      ⊎ ((m'.quota ≡ 0) × (override_rules ≡ true))
unfolding set_quota
set_quota-Fits value override_rules d m m' e fresh f h =
    let new = wanted value d m in
    let (passed, same) =
      or_mailbox-eq (check_quota m.quota new override_rules d).0 (record m { quota = new }) m' h in
    let (limit, rows) = check_quota-rows m.quota new override_rules d in
    subst
      (λ (n : Mailbox).
        Fits (save n (check_quota m.quota new override_rules d).1)
        ⊎ ((n.quota ≡ 0) × (override_rules ≡ true)))
      same
      (elim (check_quota-room m.quota new override_rules d fresh passed) [
        | inl unlimited ↦ inl (inl (limit ∙ unlimited))
        | inr (inl overridden) ↦ inr overridden
        | inr (inr room) ↦ inl (
            saved_fits d.quota _ m.pk new d.mailbox_set _ limit rows
              (fits_after d.quota m.pk m.quota new d.mailbox_set e f (inr room)))
      ])
