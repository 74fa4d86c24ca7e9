-- ===== src/Server/Webhook/Effects.antt =====
-- What one event can make the webhook handler do, and on whose word.
use review_agent.Common.{
  ℕ, ◌≡◌, ◌⊎◌, inl, inr, refl, ap, Option, none, some, or_default, Bool-cases, [], ◌∷◌, Text, text,
  text_eq, Result,
}
use review_agent.Core.Queue.{JobMessage}
use review_agent.Server.ParseCommand.{
  FeedbackCommand, FeedbackCommandKind, SlashCommand, review, parse_command, parse_slash_command,
}
use review_agent.Server.ParseCommand.Guards.{IsScope, parse_slash_command-IsScope}
use review_agent.Server.Webhook.Bodies.{
  EventName, pull_request, pull_request_review, pull_request_review_comment,
  pull_request_review_comment_reaction, reaction, issue_comment, installation,
  installation_repositories, ping, unrecognised, EventBody, in_reply_to_id, comment_body,
}
use review_agent.Server.Webhook.Deps.{
  DbClient, FeedbackAuthzResult, allowed, denied, ConversationHandlerInput,
  ConversationReplyOutcome, WebhookHandlerDeps, Language, World, Act,
}
use review_agent.Server.Webhook.Shared.{WebhookResult, date}
use review_agent.Server.Webhook.Events.{classify_reaction_payload, handle_installation_event}
use review_agent.Server.Webhook.Comments.{handle_slash_command, review_once}
use review_agent.Server.Webhook.{
  legacy_review, legacy, slash_or_legacy, feedback_or_command, handle_command, in_thread,
  on_pull_request, reviewed, reacted, installed, handle_webhook,
}
use review_agent.Server.Webhook.Frames.{Within, Moves, Moves-mono}
use review_agent.Server.Webhook.Jobs.{IsJob}
use review_agent.Server.Webhook.Steps.{
  still, then-Within, date-Within, handle_feedback_command-Within,
}
use review_agent.Server.Webhook.Authorised.{
  CanWrite, Sent, Asked, By, stay, then-By, date-By, checked-By, review-By, handle_slash_command-By,
}
use review_agent.Server.Webhook.Replies.{handle_reply-By}
use review_agent.Server.Webhook.Automatic.{
  handle_pull_request-Within, handle_installation_event-Within,
}

module _ {D : Type 0} (lang : Language) (deps : WebhookHandlerDeps D) (b : EventBody) where
  legacy_review-By :
      (authz : FeedbackAuthzResult)
      → CanWrite deps b
      → Within (By lang deps b) (legacy_review lang deps authz b)
  legacy_review-By allowed w =
      then-By lang deps b (date deps) (λ t. review_once lang deps none b t (date deps))
        (date-By lang deps b)
        (λ t r. review-By lang deps b w none t (date deps) tt (date-By lang deps b))
  legacy_review-By (denied reason) w = stay lang deps b

  legacy-By : (o : Option Text) → Within (By lang deps b) (legacy lang deps o b)
  legacy-By none = stay lang deps b
  legacy-By (some []) = stay lang deps b
  legacy-By (some (c ∷ command)) = elim (Bool-cases (text_eq (c ∷ command) (text "review"))) [
    | inl e ↦ rw e (
        checked-By lang deps b (λ authz. legacy_review lang deps authz b)
          (λ w. legacy_review-By allowed w) (λ reason. stay lang deps b))
    | inr e ↦ rw e (stay lang deps b)
  ]

  slash_or_legacy-By :
      (o : Option SlashCommand) (t : Text)
      → ((scope : Option Text) → o ≡ some (review scope) → IsScope scope)
      → Within (By lang deps b) (slash_or_legacy lang deps o t b)
  slash_or_legacy-By (some slash) t h =
      then-By lang deps b (date deps) (λ now. handle_slash_command lang deps slash b now)
        (date-By lang deps b)
        (λ now r. handle_slash_command-By lang deps b slash now (λ scope e. h scope (ap some e)))
  slash_or_legacy-By none t h = legacy-By (parse_command lang.to_lower_case t)

  feedback_or_command-By :
      (o : Option FeedbackCommand) (t : Text)
      → Within (By lang deps b) (feedback_or_command lang deps o t b)
  feedback_or_command-By (some fb) t =
      handle_feedback_command-Within (Sent lang deps b) (Asked lang deps b) (CanWrite deps b) deps
        fb b
  feedback_or_command-By none t =
      slash_or_legacy-By (parse_slash_command lang.to_lower_case t) t
        (λ scope e. parse_slash_command-IsScope lang.to_lower_case t e)

  handle_command-By : Within (By lang deps b) (handle_command lang deps b)
  unfolding handle_command
  handle_command-By = feedback_or_command-By _ (or_default (comment_body b) [])

  in_thread-By :
      (c : Option (ConversationHandlerInput → Result Text ConversationReplyOutcome)) (o : Option ℕ)
      → Within (By lang deps b) (in_thread lang deps c o b)
  in_thread-By (some handle) (some root) = handle_reply-By lang deps b handle
  in_thread-By (some handle) none = handle_command-By
  in_thread-By none root = handle_command-By

  reviewed-By : (o : Option ℕ) → Within (By lang deps b) (reviewed lang deps b o)
  unfolding handle_command
  reviewed-By (some id) = elim (Bool-cases (text_eq (or_default b.action []) (text "dismissed"))) [
    | inl e ↦ rw e (stay lang deps b)
    | inr e ↦ rw e handle_command-By
  ]
  reviewed-By none = handle_command-By

  -- why a message may be sent, and why the database may change
  abbrev pub MaySend : EventName → JobMessage → Type 0
  MaySend event m = IsJob b m × ((event ≡ pull_request) ⊎ CanWrite deps b)

  abbrev pub MayWrite : EventName → Type 0
  MayWrite event = (event ≡ installation) ⊎ CanWrite deps b

  abbrev pub Allowed : EventName → World D → World D → Type 0
  Allowed event = Moves (MaySend event) (Asked lang deps b) (MayWrite event)

  allow :
      (event : EventName) (m : Act D WebhookResult)
      → Within (By lang deps b) m
      → Within (Allowed event) m
  allow event m h s =
      Moves-mono (Sent lang deps b) (MaySend event) (Asked lang deps b) (Asked lang deps b)
        (CanWrite deps b) (MayWrite event) s (m s).1 (λ x p. (p.0, inr p.1)) (λ i p. p) (λ w. inr w)
        (h s)

  rest : (event : EventName) (s : World D) → Allowed event s s
  rest event = still (MaySend event) (Asked lang deps b) (MayWrite event)

  reacted-Allowed :
      (event : EventName) (o : Option (FeedbackCommandKind × ℕ))
      → Within (Allowed event) (reacted lang deps o)
  reacted-Allowed event none = rest event
  reacted-Allowed event (some (signal, id)) = rest event

  installed-Allowed :
      (o : Option (DbClient D)) → Within (Allowed installation) (installed lang deps o b)
  installed-Allowed none = rest installation
  installed-Allowed (some db) =
      then-Within (MaySend installation) (Asked lang deps b) (MayWrite installation) (date deps)
        (λ now. handle_installation_event db b now)
        (date-Within (MaySend installation) (Asked lang deps b) (MayWrite installation) deps)
        (λ now r.
          handle_installation_event-Within (MaySend installation) (Asked lang deps b)
            (MayWrite installation) lang deps b db (inl refl) now)

  -- Whatever the event and its payload, the handler only does this. Every message that it sends names
  -- the pull request of the event, a known trigger and at most one path, and is sent for a
  -- `pull_request` event or for a sender with write permission. The conversation handler is called
  -- only for a sender with write permission who is not the bot, whose name is known. The database
  -- changes only for an `installation` event or for a sender with write permission.
  pub handle_webhook-Allowed :
      (event : EventName) (s : World D) → Allowed event s (handle_webhook lang deps event b s).1
  unfolding handle_webhook
  handle_webhook-Allowed ping = rest ping
  handle_webhook-Allowed installation_repositories = rest installation_repositories
  handle_webhook-Allowed installation = installed-Allowed deps.db
  handle_webhook-Allowed pull_request_review_comment_reaction =
      reacted-Allowed pull_request_review_comment_reaction (classify_reaction_payload b)
  handle_webhook-Allowed reaction = reacted-Allowed reaction (classify_reaction_payload b)
  handle_webhook-Allowed pull_request_review =
      allow pull_request_review (reviewed lang deps b b.review_id) (reviewed-By b.review_id)
  handle_webhook-Allowed pull_request =
      handle_pull_request-Within (MaySend pull_request) (Asked lang deps b) (MayWrite pull_request)
        lang deps b (λ m j. (j, inl refl))
  handle_webhook-Allowed issue_comment = elim (Bool-cases (on_pull_request lang deps b.issue)) [
    | inl e ↦ rw e (allow issue_comment (handle_command lang deps b) handle_command-By)
    | inr e ↦ rw e (rest issue_comment)
  ]
  handle_webhook-Allowed pull_request_review_comment =
      allow pull_request_review_comment
        (in_thread lang deps deps.handle_conversation (in_reply_to_id b) b)
        (in_thread-By deps.handle_conversation (in_reply_to_id b))
  handle_webhook-Allowed (unrecognised event) = rest (unrecognised event)
