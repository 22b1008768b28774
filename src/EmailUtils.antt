-- ===== src/EmailUtils.antt =====
-- The address functions of modoboa/lib/email_utils.py: split_address, split_local_part and
-- split_mailbox. Addresses are texts of code points.
pub mod Split
pub mod Join
mod Tests
