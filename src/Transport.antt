-- ===== src/Transport.antt =====
-- modoboa/transport/backends.py: the backends that deliver mail, their settings and the manager.
pub mod Backend
pub mod Manager
pub mod Clean
mod Tests
