-- ===== src/Extensions.antt =====
-- modoboa/core/extensions.py: extensions and the pool that they are registered in.
pub mod Extension
pub mod Pool
pub mod Instances
mod Tests
