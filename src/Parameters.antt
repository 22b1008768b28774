-- ===== src/Parameters.antt =====
-- modoboa/parameters/tools.py: the registry of parameters and the managers that read and write them.
pub mod Registry
pub mod Structure
pub mod Manager
pub mod Access
pub mod Defaults
mod Tests
