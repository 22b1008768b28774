-- ===== src/Policyd.antt =====
-- modoboa/policyd: the policy daemon that Postfix asks before it accepts a recipient, its counters
-- in Redis, and the handlers that keep the counters in step with the configured limits.
pub mod Redis
pub mod Request
pub mod Policies
pub mod Limits
pub mod Alarms
pub mod Race
pub mod Schedule
mod Tests
