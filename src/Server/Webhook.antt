-- ===== src/Server/Webhook.antt =====
-- packages/server/src/handlers/webhook.ts: the dispatch of one event. The types, the helpers and the
-- handlers of each kind of event are child modules.
pub mod Bodies
pub mod Deps
pub mod Shared
pub mod Events
pub mod Comments
pub mod Pushes
pub mod Frames
pub mod Authorised
mod Jobs
mod Steps
mod Replies
mod Automatic
pub mod Effects
pub mod Lifecycle
pub mod Schema
mod Tests
pub mod Pausing
mod Guards
pub mod Paused
use review_agent.Common.{
  ℕ, Bool, true, false, not, ◌&&◌, Option, none, some, or_default, [], ◌∷◌, ◌++◌, Text, text,
  text_eq, Result, if◌then◌else◌,
}
use review_agent.Server.ParseCommand.{
  FeedbackCommandKind, FeedbackCommand, SlashCommand, dismissed, parse_command, parse_slash_command,
  parse_feedback_command,
}
use review_agent.Server.Webhook.Bodies.{
  EventName, Issue, EventBody, chain, in_reply_to_id, comment_body,
}
use review_agent.Server.Webhook.Deps.{
  FeedbackAuthzResult, allowed, denied, ConversationHandlerInput, ConversationReplyOutcome,
  DbClient, WebhookHandlerDeps, Language, World, Act, ◌>>=◌, pure,
}
use review_agent.Server.Webhook.Shared.{
  WebhookResult, ignored, noop, feedback, date, check_command_authz,
}
use review_agent.Server.Webhook.Events.{
  handle_installation_event, classify_reaction_payload, handle_feedback_command,
}
use review_agent.Server.Webhook.Comments.{review_once, handle_slash_command, handle_reply}
use review_agent.Server.Webhook.Pushes.{handle_pull_request}

module _ {Database : Type 0} (lang : Language) (deps : WebhookHandlerDeps Database) where
  abbrev pub legacy_review : FeedbackAuthzResult → EventBody → Act Database WebhookResult
  legacy_review (denied reason) b = pure (ignored (text "unauthorized command"))
  legacy_review allowed b = do t ← date deps; review_once lang deps none b t (date deps)

  abbrev pub legacy : Option Text → EventBody → Act Database WebhookResult
  legacy none b = pure (ignored (text "no agent command"))
  legacy (some []) b = pure (ignored (text "no agent command"))
  legacy (some (c ∷ command)) b =
      if text_eq (c ∷ command) (text "review")
      then (check_command_authz deps b >>= λ authz. legacy_review authz b)
      else pure (noop (text "command '" ++ ((c ∷ command) ++ text "' not yet implemented")))

  abbrev pub slash_or_legacy : Option SlashCommand → Text → EventBody → Act Database WebhookResult
  slash_or_legacy (some slash) t b = do now ← date deps; handle_slash_command lang deps slash b now
  slash_or_legacy none t b = legacy (parse_command lang.to_lower_case t) b

  abbrev pub feedback_or_command :
      Option FeedbackCommand → Text → EventBody → Act Database WebhookResult
  feedback_or_command (some fb) t b = handle_feedback_command deps fb b
  feedback_or_command none t b = slash_or_legacy (parse_slash_command lang.to_lower_case t) t b

  -- the commands of a comment, in their order of precedence
  unfoldable pub handle_command : EventBody → Act Database WebhookResult
  unfolding text_eq
  handle_command b =
      let t = or_default (comment_body b) [] in
      feedback_or_command (parse_feedback_command lang.to_lower_case t) t b

  abbrev pub in_thread :
      Option (ConversationHandlerInput → Result Text ConversationReplyOutcome)
      → Option ℕ
      → EventBody
      → Act Database WebhookResult
  in_thread (some handle) (some root) b = handle_reply lang deps handle b
  in_thread (some handle) none b = handle_command b
  in_thread none root b = handle_command b

  abbrev pub on_pull_request : Option Issue → Bool
  on_pull_request none = false
  on_pull_request (some i) = i.is_pull_request

  abbrev pub reviewed : EventBody → Option ℕ → Act Database WebhookResult
  reviewed b (some id) =
      if text_eq (or_default b.action []) (text "dismissed")
      then pure (feedback dismissed id)
      else handle_command b
  reviewed b none = handle_command b

  abbrev pub reacted : Option (FeedbackCommandKind × ℕ) → Act Database WebhookResult
  reacted none = pure (ignored (text "reaction payload not recognised"))
  reacted (some (signal, id)) = pure (feedback signal id)

  abbrev pub installed : Option (DbClient Database) → EventBody → Act Database WebhookResult
  installed none b = pure (noop (or_default b.action (text "unknown") ++ text " acknowledged"))
  installed (some db) b = do now ← date deps; handle_installation_event db b now

  unfoldable pub handle_webhook : EventName → EventBody → Act Database WebhookResult
  unfolding text_eq
  handle_webhook EventName.ping b = pure (noop (text "ping"))
  handle_webhook EventName.installation_repositories b =
      pure (noop (text "installation_repositories acknowledged"))
  handle_webhook EventName.installation b = installed deps.db b
  handle_webhook EventName.pull_request_review_comment_reaction b =
      reacted (classify_reaction_payload b)
  handle_webhook EventName.reaction b = reacted (classify_reaction_payload b)
  handle_webhook EventName.pull_request_review b = reviewed b b.review_id
  handle_webhook EventName.pull_request b = handle_pull_request lang deps b
  handle_webhook EventName.issue_comment b =
      if on_pull_request b.issue
      then handle_command b
      else pure (ignored (text "issue comment, not PR"))
  handle_webhook EventName.pull_request_review_comment b =
      in_thread deps.handle_conversation (in_reply_to_id b) b
  handle_webhook (EventName.unrecognised event) b =
      pure (ignored (text "unhandled event '" ++ (event ++ text "'")))
