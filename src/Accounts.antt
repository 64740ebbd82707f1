-- ===== src/Accounts.antt =====
-- server-match/src/auth: the codes that are sent by mail.
pub mod VerificationCode
mod Tests
