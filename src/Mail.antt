-- ===== src/Mail.antt =====
-- The mail objects of modoboa/admin/models: quotas, DNS status and administrators of domains,
-- recipients of aliases.
pub mod Quota
pub mod Dns
pub mod Admins
pub mod Recipients
mod Tests
