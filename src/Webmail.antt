-- ===== src/Webmail.antt =====
-- The webmail client: modoboa/webmail/lib/imaputils.py.
pub mod Arguments
mod Tests
