-- ===== src/Imap.antt =====
-- The IMAP side of the webmail: the coding of folder names (modoboa/lib/imap_utf7.py) and the parser
-- of FETCH responses (modoboa/webmail/lib/fetch_parser.py).
pub mod Utf7
pub mod RoundTrip
pub mod Unary
mod Tests
