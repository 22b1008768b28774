-- ===== src/DnsChecker.antt =====
-- The checks of a domain's MX records: modoboa/admin/dns_checker.py, and the cache of the records,
-- modoboa/admin/models/mxrecord.py. The tables hold the rows of the domain that is checked.
pub mod Mx
pub mod Blacklist
mod Tests
