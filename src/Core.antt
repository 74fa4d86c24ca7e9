-- ===== src/Core.antt =====
-- packages/core/src: the pure rules that every other package shares.
pub mod Review
pub mod Glob
pub mod Cost
pub mod Retry
pub mod Audit
pub mod Incremental
pub mod Queue
