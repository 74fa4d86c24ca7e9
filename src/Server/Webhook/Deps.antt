-- ===== src/Server/Webhook/Deps.antt =====
-- What packages/server/src/handlers/webhook.ts reads and changes. The database is a parameter, with
-- the five queries that the handler makes; the other collaborators of `WebhookHandlerDeps` are
-- functions that answer or throw. A handler is a step on the world; what was changed before a throw
-- stays changed.
use review_agent.Common.{ℕ, Bool, Option, List, [], ◌∷◌, ◌++◌, Text, Result, ok, err}
use review_agent.Core.Queue.{JobMessage}
use review_agent.Server.ParseCommand.{FeedbackCommandKind}

pub record ReviewStateRow : Type 0 where
  pub updated_at : ℕ
  pub paused : Bool

pub record InstallationRow : Type 0 where
  pub app_id : ℕ
  pub account_login : Text
  pub account_type : Text
  pub setup_action : Text
  pub suspended_at : Option ℕ
  pub updated_at : ℕ

-- the queries, each for one tenant
pub record DbClient (Database : Type 0) : Type 0 where
  pub select_review_state :
      Database → (installation : ℕ) → (pr_id : Text) → Result Text (Option ReviewStateRow)
  pub update_review_state :
      Database → ℕ → Text → (paused : Bool) → (updated_at : ℕ) → Result Text Database
  pub upsert_installation : Database → ℕ → InstallationRow → Result Text Database
  pub suspend_installation : Database → ℕ → (at : ℕ) → Result Text Database
  pub delete_installation : Database → ℕ → Result Text Database

pub record AuthzInput : Type 0 where
  pub owner : Text
  pub repo : Text
  pub username : Text

pub data FeedbackAuthzResult : Type 0 where
  allowed : FeedbackAuthzResult
  denied : Text → FeedbackAuthzResult

pub record ConversationHandlerInput : Type 0 where
  pub installation_id : ℕ
  pub owner : Text
  pub repo : Text
  pub pr_number : ℕ
  pub root_comment_id : ℕ
  pub reply_comment_id : ℕ
  pub body : Text
  pub diff_hunk : Option Text
  pub sender : Text

pub data ConversationReplyOutcome : Type 0 where
  dispatched unauthorized self_reply : ConversationReplyOutcome

pub data FeedbackCommandOutcome : Type 0 where
  recorded unauthorized unresolved rate_limited : FeedbackCommandOutcome

pub record TriggerConfig : Type 0 where
  pub trigger_labels : List Text
  pub skip_labels : List Text

-- `now k` is the time at the `k`-th reading of the clock
pub record WebhookHandlerDeps (Database : Type 0) : Type 0 where
  pub enqueue : JobMessage → Result Text Text
  pub now : ℕ → ℕ
  pub check_authz : Option (AuthzInput → Result Text FeedbackAuthzResult)
  pub handle_conversation : Option (ConversationHandlerInput → Result Text ConversationReplyOutcome)
  pub get_bot_login : Option (Result Text Text)
  pub db : Option (DbClient Database)
  pub trigger_config : Option TriggerConfig
  pub debounce_ms : Option ℕ

-- the parts of the language's library whose tables the model leaves open
pub record Language : Type 0 where
  pub to_lower_case : Text → Text
  pub to_iso_string : ℕ → Text

pub record FeedbackMetric : Type 0 where
  pub kind : FeedbackCommandKind
  pub outcome : FeedbackCommandOutcome

-- `ticks` counts the readings of the clock; the lists hold what was sent, in order
pub record World (Database : Type 0) : Type 0 where
  pub ticks : ℕ
  pub database : Database
  pub queue : List JobMessage
  pub conversations : List ConversationHandlerInput
  pub metrics : List FeedbackMetric

abbrev pub Act : Type 0 → Type 0 → Type 0
Act Database A = World Database → Result Text A × World Database

abbrev pub continue :
    {D A B : Type 0} → Result Text A → (A → Act D B) → World D → Result Text B × World D
continue (ok a) f s = f a s
continue (err e) f s = (err e, s)

infixl 5 ◌>>=◌ ◌>>◌
abbrev pub ◌>>=◌ : {D A B : Type 0} → Act D A → (A → Act D B) → Act D B
◌>>=◌ m f s = let (r, s') = m s in continue r f s'

abbrev pub ◌>>◌ : {D B : Type 0} → Act D (Unit {0}) → Act D B → Act D B
m >> k = m >>= λ _. k

abbrev pub pure : {D A : Type 0} → A → Act D A
pure a s = (ok a, s)

-- a call that changes nothing here
abbrev pub answer : {D A : Type 0} → Result Text A → Act D A
answer r s = (r, s)

-- a write: the database that it leaves, or a throw
abbrev pub stored : {D : Type 0} → Result Text D → World D → Result Text (Unit {0}) × World D
stored (ok d) s = (ok tt, record s { database = d })
stored (err e) s = (err e, s)

abbrev pub write : {D : Type 0} → (D → Result Text D) → Act D (Unit {0})
write f s = stored (f s.database) s

abbrev pub count : {D : Type 0} → FeedbackMetric → Act D (Unit {0})
count m s = (ok tt, record s { metrics = s.metrics ++ (m ∷ []) })
