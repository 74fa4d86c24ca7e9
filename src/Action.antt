-- ===== src/Action.antt =====
-- packages/action/src: the run of the agent inside a workflow.
pub mod Payload
