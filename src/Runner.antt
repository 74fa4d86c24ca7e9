-- ===== src/Runner.antt =====
-- packages/runner/src: one review, from the job to the result.
pub mod DiffFilter
pub mod Effects
pub mod CostGuard
pub mod Types
pub mod Dedup
pub mod Gitleaks
pub mod Agent
pub mod StateBuilder
pub mod FeedbackWriter
pub mod Tools
pub mod AutoFetch
pub mod Conversation
