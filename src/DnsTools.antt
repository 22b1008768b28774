-- ===== src/DnsTools.antt =====
-- Reading and checking the TXT records of a domain: modoboa/dnstools/lib.py.
pub mod Records
pub mod Spf
pub mod Tags
mod Tests
