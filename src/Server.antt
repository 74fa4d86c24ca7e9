-- ===== src/Server.antt =====
-- packages/server/src: the commands in comments and the webhook handler.
pub mod ParseCommand
pub mod Webhook
pub mod Authz
pub mod Idempotency
pub mod Sns
pub mod Codecommit
pub mod Worker
