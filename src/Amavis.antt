-- ===== src/Amavis.antt =====
-- The users and policies of Amavis that Modoboa keeps: modoboa/amavis/lib.py and
-- modoboa/amavis/handlers.py.
pub mod Tables
pub mod Records
pub mod Learning
pub mod Handlers
pub mod Linked
pub mod Leftover
mod Tests
