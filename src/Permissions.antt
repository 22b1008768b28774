-- ===== src/Permissions.antt =====
-- Object level permissions: modoboa/lib/permissions.py, and the methods of modoboa/core/models.py
-- that read the same table.
pub mod Table
pub mod Grant
pub mod Accounts
pub mod Lookup
pub mod Access
pub mod Ownership
mod Tests
