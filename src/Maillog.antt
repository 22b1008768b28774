-- ===== src/Maillog.antt =====
-- The mail log parser: how messages are counted (modoboa/maillog/management/commands/logparser.py).
pub mod Counters
pub mod Rrd
mod Tests
