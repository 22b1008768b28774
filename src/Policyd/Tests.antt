-- ===== src/Policyd/Tests.antt =====
-- Small runs of the policy daemon, on a hash in memory.
use mrt_post_office.Prelude.{
  ◌≡◌, refl, none, some, List, [], ◌∷◌, Text, ◌-◌, ◌≤◌, text_eq, ℕ, ◌++◌, ◌*◌, ◌+◌, arith, length,
}
use mrt_post_office.Prelude.Int.{pos, ◌-ℤ◌, ◌+ℤ◌}
use mrt_post_office.Prelude.Chars.{codes}
use mrt_post_office.Prelude.Dict.{Dict, update}
use mrt_post_office.Prelude.Result.{ok}
use mrt_post_office.EmailUtils.Split.{split_mailbox, split_address}
use mrt_post_office.Policyd.Redis.Memory.{memory}
use mrt_post_office.Policyd.Request.{read_attributes, read_lines, read_line}
use mrt_post_office.Policyd.Request.RoundTrip.{format, read_attributes-format}
use mrt_post_office.Policyd.Policies.{
  Daemon, failure, success, apply_policies, apply_to, check, decrement_limit, handle_connection,
  domain,
}
use mrt_post_office.Policyd.Policies.Exact.{apply_policies_action, apply_policies_counters}
use mrt_post_office.Policyd.Policies.Accounting.{granted, serve_all, granted-le-limit}
use mrt_post_office.Policyd.Limits.{
  set_message_limit, set_message_limit-InStep, hset_all, hget-hset_all,
}
use mrt_post_office.Policyd.Alarms.{Database, create_alarm, new_alarm, reset_counters}
use mrt_post_office.Policyd.Alarms.Reset.{pending, hget-reset_counters, create_alarm_survives_reset}
use mrt_post_office.Policyd.Race.{run, rounds, domain_exists, finished}
use mrt_post_office.Policyd.Race.Alone.{run_alone}
use mrt_post_office.Policyd.Race.Overshoot.{replicate, rounds-overshoot}
use mrt_post_office.Policyd.Schedule.{one_day, wait_for, start_reset_counters_coro}
use mrt_post_office.Policyd.Schedule.Daily.{
  EndsAt, IsDaily, wait_for_ends, start_reset_counters_coro-IsDaily,
}

abbrev joe : Text
joe = codes "joe@a.fr"

abbrev domain_key : Text
domain_key = codes "a.fr"

abbrev attributes : Dict Text Text
attributes = (codes "protocol_state", codes "RCPT") ∷ (codes "sasl_username", joe) ∷ []

-- two messages left for the account, none counted for the domain
abbrev two_left : Daemon memory
two_left = record { hash = (joe, pos 2) ∷ []; notices = [] }

abbrev spent_domain : Daemon memory
spent_domain = record { hash = (domain_key, pos 0) ∷ (joe, pos 2) ∷ []; notices = [] }

apply_policies_action_example : (apply_policies memory attributes spent_domain).0 ≡ ok failure
apply_policies_action_example =
    apply_policies_action memory attributes spent_domain joe (codes "joe") domain_key refl (λ e. cc)
      (unfold split_mailbox split_address in refl)

apply_policies_counters_example :
    memory.hget joe (apply_policies memory attributes two_left).1.hash ≡ some (pos 1)
unfolding split_address ◌+ℤ◌
apply_policies_counters_example =
    apply_policies_counters memory attributes two_left joe (codes "joe") domain_key joe refl
      (λ e. cc) (unfold split_mailbox split_address in refl)

-- Three requests on a counter of two
granted-le-limit_example :
    (granted memory joe (attributes ∷ attributes ∷ attributes ∷ []) two_left ≤ 2)
    × (memory.hget joe (serve_all memory (attributes ∷ attributes ∷ attributes ∷ []) two_left).hash
        ≡ some (pos (2 - granted memory joe (attributes ∷ attributes ∷ attributes ∷ []) two_left)))
granted-le-limit_example =
    granted-le-limit memory joe refl (attributes ∷ attributes ∷ attributes ∷ []) two_left 2 refl

third_is_refused : granted memory joe (attributes ∷ attributes ∷ attributes ∷ []) two_left ≡ 2
unfolding granted apply_policies apply_to check split_mailbox split_address decrement_limit ◌+ℤ◌
third_is_refused = refl

read_attributes-format_example : read_attributes (format attributes) ≡ update [] attributes
read_attributes-format_example =
    read_attributes-format attributes ((refl, refl, refl), ((refl, refl, refl), tt))

set_message_limit-InStep_example :
    memory.hget joe (set_message_limit memory (some 3) (some 5) joe two_left.hash)
    ≡ some (pos 5 -ℤ pos 1)
unfolding ◌-ℤ◌
set_message_limit-InStep_example =
    set_message_limit-InStep memory (some 3) (some 5) 1 joe two_left.hash refl

abbrev limits : List (Text × ℕ)
limits = (domain_key, 7) ∷ (joe, 4) ∷ []

hget-hset_all_example : memory.hget joe (hset_all memory limits spent_domain.hash) ≡ some (pos 4)
hget-hset_all_example = hget-hset_all memory limits joe spent_domain.hash (refl, (refl, tt))

abbrev database : Database
database = record {
  domains = record { name = domain_key; message_limit = some 7 } ∷ [];
  mailboxes =
      record { address = codes "joe"; domain_name = domain_key; message_limit = some 4 } ∷ [];
  alarms = [];
}

hget-reset_counters_example :
    memory.hget joe (reset_counters memory 5 database two_left.hash).1 ≡ some (pos 4)
hget-reset_counters_example =
    hget-reset_counters memory 5 database two_left.hash joe (refl, tt) (refl, tt)

abbrev raised : Database
raised = record database { alarms = new_alarm 3 (some domain_key) none ∷ [] }

create_alarm_survives_reset_example :
    pending (reset_counters memory 5 raised two_left.hash).0.alarms ≡ 1
create_alarm_survives_reset_example =
    create_alarm_survives_reset memory 3 5 domain domain_key database raised two_left.hash
      (unfold create_alarm in refl)

run_alone_example :
    ((run memory joe (some domain_key) 6 domain_exists two_left).0 ≡ finished (ok success))
    × (memory.hget joe (run memory joe (some domain_key) 6 domain_exists two_left).1.hash
        ≡ some (pos 1))
unfolding ◌+ℤ◌
run_alone_example =
    run_alone memory two_left joe (codes "joe") domain_key joe (λ e. cc)
      (unfold split_mailbox split_address in refl)

-- Five connections let through on a counter of two
rounds-overshoot_example :
    ((rounds memory joe (some domain_key) 4 (replicate 5 domain_exists) two_left).0
      ≡ replicate 5 (finished (ok success)))
    × (memory.hget joe
          (rounds memory joe (some domain_key) 4 (replicate 5 domain_exists) two_left).1.hash
        ≡ some (pos 2 -ℤ pos 5))
rounds-overshoot_example = rounds-overshoot memory joe domain_key 5 1 two_left refl refl

-- A whole exchange: the bytes in, the bytes out
exchange :
    (handle_connection memory (some (format attributes)) spent_domain).0
    ≡ ok (codes "action=defer_if_permit Daily limit reached, retry later" ++ 10 ∷ 10 ∷ [])
unfolding handle_connection apply_policies read_attributes read_lines read_line apply_to check
    split_mailbox split_address
exchange = refl

-- A wait of two days and 7 microseconds, in three rounds that each overrun by 5
two_days : wait_for (λ _. 5) 3 (2 * one_day + 7) 0 ≡ some (2 * one_day + 15)
unfolding wait_for ◌-ℤ◌
two_days = refl

wait_for_ends_example : (t : ℕ) × EndsAt (λ _. 5) 5 3 (2 * one_day + 7) 0 t
wait_for_ends_example =
    wait_for_ends (λ _. 5) 5 (λ _. omega arith) 2 (2 * one_day + 7) 0 (omega arith)

-- A week of resets, started at noon
start_reset_counters_coro-IsDaily_example :
    (starts : List ℕ) × (start_reset_counters_coro (λ _. 5) (λ _. 3000000) 7 43200000000
      ≡ some starts)
    × (length starts ≡ 7)
    × IsDaily 1 starts
start_reset_counters_coro-IsDaily_example =
    start_reset_counters_coro-IsDaily (λ _. 5) (λ _. 3000000) 5 3000000 (λ _. omega arith)
      (λ _. omega arith) (omega arith) 7 43200000000
