-- ===== src/Server/Webhook/Comments.antt =====
-- packages/server/src/handlers/webhook.ts: slash commands and replies in review threads.
use review_agent.Common.{
  ℕ, Bool, true, false, not, Option, none, some, or_default, [], ◌∷◌, ◌++◌, Text, text, text_eq,
  includes, is_empty, Result, if◌then◌else◌,
}
use review_agent.Server.ParseCommand.{SlashCommand, review, skip, resume}
use review_agent.Server.Webhook.Bodies.{
  EventBody, chain, installation_id, owner, repo, comment_id, in_reply_to_id, comment_body,
}
use review_agent.Server.Webhook.Deps.{
  DbClient, FeedbackAuthzResult, allowed, denied, ConversationHandlerInput,
  ConversationReplyOutcome, unauthorized, self_reply, WebhookHandlerDeps, Language, Act, ◌>>=◌,
  ◌>>◌, pure, answer, write,
}
use review_agent.Server.Webhook.Shared.{
  WebhookResult, ignored, noop, conversation_reply, build_pr_id, build_job_message_with_scope,
  enqueue_job, check_command_authz, place, check_debounce,
}

-- the reply, once the payload has all that it needs
abbrev pub reply_input : EventBody → Option ConversationHandlerInput
reply_input b = chain (installation_id b) (λ id. chain (owner b) (λ o. chain (repo b) (λ r.
    chain (chain b.pull_request (λ p. p.number)) (λ n. chain (comment_id b) (λ reply.
      chain (in_reply_to_id b) (λ root. some (record {
        installation_id = id;
        owner = o;
        repo = r;
        pr_number = n;
        root_comment_id = root;
        reply_comment_id = reply;
        body = or_default (comment_body b) [];
        diff_hunk = chain b.comment (λ c. c.diff_hunk);
        sender = or_default b.sender_login [];
      })))))))

abbrev reply_result : ConversationHandlerInput → ConversationReplyOutcome → WebhookResult
reply_result i outcome = conversation_reply outcome i.reply_comment_id i.pr_number

module _ {Database : Type 0} (lang : Language) (deps : WebhookHandlerDeps Database) where
  abbrev pub set_paused_at :
      Bool → ℕ → Option (DbClient Database × ℕ × Text) → Act Database (Unit {0})
  set_paused_at paused now none = pure tt
  set_paused_at paused now (some (db, id, pr_id)) =
      write (λ d. db.update_review_state d id pr_id paused now)

  -- the update of the row; without a database, a tenant or a pull request nothing is written
  unfoldable pub set_paused : Bool → EventBody → ℕ → Act Database (Unit {0})
  set_paused paused b now = set_paused_at paused now (place deps b (build_pr_id b))

  abbrev pub unless_debounced :
      Bool → Option Text → EventBody → Act Database ℕ → Act Database WebhookResult
  unless_debounced true path_scope b later =
      pure (ignored (text "debounced: review already in flight"))
  unless_debounced false path_scope b later = do
    t ← later
    enqueue_job deps (build_job_message_with_scope lang b (text "comment.command") t path_scope)

  -- a review that was asked for in a comment; `later` reads the time for the message
  unfoldable pub review_once :
      Option Text → EventBody → ℕ → Act Database ℕ → Act Database WebhookResult
  review_once path_scope b now later = do
    debounced ← check_debounce deps b now
    unless_debounced debounced path_scope b later

  abbrev pub run_command : SlashCommand → EventBody → ℕ → Act Database WebhookResult
  run_command skip b now = do set_paused true b now; pure (noop (text "PR paused (skip)"))
  run_command resume b now = do set_paused false b now; pure (noop (text "PR resumed"))
  run_command (review path_scope) b now = review_once path_scope b now (pure now)

  abbrev pub if_allowed :
      FeedbackAuthzResult → Act Database WebhookResult → Act Database WebhookResult
  if_allowed allowed m = m
  if_allowed (denied reason) m = pure (ignored (text "unauthorized command"))

  unfoldable pub handle_slash_command : SlashCommand → EventBody → ℕ → Act Database WebhookResult
  handle_slash_command slash b now = do
    authz ← check_command_authz deps b
    if_allowed authz (run_command slash b now)

  -- the call of the handler, and what it was called with
  abbrev pub converse :
      (ConversationHandlerInput → Result Text ConversationReplyOutcome)
      → ConversationHandlerInput
      → Act Database ConversationReplyOutcome
  converse handle i s = (handle i, record s { conversations = s.conversations ++ (i ∷ []) })

  abbrev pub reply_if :
      (ConversationHandlerInput → Result Text ConversationReplyOutcome)
      → ConversationHandlerInput
      → FeedbackAuthzResult
      → Act Database WebhookResult
  reply_if handle i allowed = do outcome ← converse handle i; pure (reply_result i outcome)
  reply_if handle i (denied reason) = pure (reply_result i unauthorized)

  abbrev pub reply_as :
      (ConversationHandlerInput → Result Text ConversationReplyOutcome)
      → EventBody
      → ConversationHandlerInput
      → (bot_login : Text) → Act Database WebhookResult
  reply_as handle b i bot_login =
      if is_empty bot_login
      then pure (ignored (text "conversation reply: getBotLogin returned empty (fail-closed)"))
      else if text_eq i.sender bot_login
      then pure (reply_result i self_reply)
      else (do authz ← check_command_authz deps b; reply_if handle i authz)

  abbrev pub reply_to :
      (ConversationHandlerInput → Result Text ConversationReplyOutcome)
      → EventBody
      → Option ConversationHandlerInput
      → Option (Result Text Text)
      → Act Database WebhookResult
  reply_to handle b none login = pure (ignored (text "conversation reply: missing required fields"))
  reply_to handle b (some i) none =
      pure (ignored (text "conversation reply: getBotLogin not wired (fail-closed)"))
  reply_to handle b (some i) (some login) = do
    bot_login ← answer login
    reply_as handle b i bot_login

  unfoldable pub handle_reply :
      (ConversationHandlerInput → Result Text ConversationReplyOutcome)
      → EventBody
      → Act Database WebhookResult
  unfolding text_eq includes
  handle_reply handle b =
      if not (text_eq (or_default b.action []) (text "created"))
      then pure (ignored (text "pull_request_review_comment action is not created"))
      else if not
          (includes (text "@review-agent") (lang.to_lower_case (or_default (comment_body b) [])))
      then pure (ignored (text "no @review-agent mention in reply"))
      else reply_to handle b (reply_input b) deps.get_bot_login
