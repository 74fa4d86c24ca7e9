-- ===== src/Llm.antt =====
-- packages/llm/src: how a failed call of a model is tried again.
pub mod Retry
