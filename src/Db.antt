-- ===== src/Db.antt =====
-- packages/db/src: the stored states of reviews and the log of audit rows.
pub mod ReviewState
pub mod AuditLog
pub mod Conversation
