-- ===== src/Fetch.antt =====
-- modoboa/webmail/lib/fetch_parser.py: the parser of FETCH responses, as a machine on tokens.
pub mod Structure
pub mod Parser
pub mod Flags
mod Tests
