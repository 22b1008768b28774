-- ===== src/Limits.antt =====
-- modoboa/limits: how many objects a user or a domain may have, and how resellers hand on their
-- resources.
pub mod World
pub mod Limit
pub mod Pool
pub mod Handlers
pub mod Bounds
pub mod Checks
pub mod Roles
mod Tests
