-- ===== src/Server/Codecommit.antt =====
-- packages/server/src/handlers/codecommit-webhook.ts and packages/platform-codecommit/src/authz.ts.
-- The parser of JSON, the queue, the call that confirms a subscription, the clock and the language
-- are parameters. Of an event the fields are of the types that the source declares, but `event` and
-- `account`, which it tests. The state is what was fetched, sent and counted, in order.
pub mod Event
pub mod Allowed
mod Tests
use review_agent.Common.{
  ℕ, Bool, true, false, not, Option, none, some, or_default, List, [], ◌∷◌, ◌++◌, all, filter, map,
  Text, text, text_eq, has, is_empty, split, decimal, Result, ok, err, leb, if◌then◌else◌, ◌&&◌,
}
use review_agent.Core.Queue.{JobMessage}
use review_agent.Server.ParseCommand.{
  FeedbackCommand, FeedbackCommandKind, parse_command, parse_feedback_command,
}
use review_agent.Server.Webhook.Deps.{
  Language, FeedbackCommandOutcome, recorded, unauthorized, unresolved, FeedbackMetric,
  FeedbackAuthzResult, allowed, denied,
}
use review_agent.Server.Sns.{
  SnsMessage, SnsMessageType, notification, subscription_confirmation, unsubscribe_confirmation,
}
use review_agent.Server.Codecommit.Event.{
  CodecommitEvent, Parsed, extract_codecommit_event, pick_repository_name, pick_pr_number,
  build_codecommit_job_message, is_account, trim,
}

pub record CodecommitWebhookDeps : Type 0 where
  pub enqueue : JobMessage → Result Text Text
  pub now : ℕ
  pub confirm_fetch : Text → Result Text (Bool × ℕ)
  pub feedback_allowlist_env : Option Text
  pub process_env : Option Text
  pub allowed_topic_arns : Option (List Text)
  pub language : Language
  pub parse_json : Text → Parsed

pub data CodecommitWebhookResult : Type 0 where
  subscription_confirmed : CodecommitWebhookResult
  subscription_failed : ℕ → CodecommitWebhookResult
  enqueued noop ignored forbidden : Text → CodecommitWebhookResult
  feedback_command :
      FeedbackCommandKind
      → FeedbackCommandOutcome
      → Option Text
      → (pr_number : ℕ) → CodecommitWebhookResult

pub record Outside : Type 0 where
  pub fetched : List Text
  pub queue : List JobMessage
  pub metrics : List FeedbackMetric

abbrev pub Reply : Type 0
Reply = Result Text CodecommitWebhookResult × Outside

-- an absent and an empty text make an empty list
unfoldable pub parse_allowlist : Option Text → List Text
unfolding trim split
parse_allowlist none = []
parse_allowlist (some raw) =
    if is_empty raw then [] else filter (λ s. not (is_empty s)) (map trim (split b',' raw))

-- the override, and else the environment
abbrev pub allowlist_of : CodecommitWebhookDeps → List Text
allowlist_of deps =
    parse_allowlist
      (elim deps.feedback_allowlist_env [ some raw ↦ some raw | none ↦ deps.process_env ])

unfoldable pub check_code_commit_feedback_authz :
    (allowlist : List Text) → (principal_id : Text) → FeedbackAuthzResult
unfolding has
check_code_commit_feedback_authz [] principal_id =
    denied (text "REVIEW_AGENT_FEEDBACK_ALLOWLIST is unset; CodeCommit /feedback fail-closed")
check_code_commit_feedback_authz (entry ∷ allowlist) principal_id =
    if is_empty principal_id
    then denied (text "missing principalId on CodeCommit feedback event")
    else if has (entry ∷ allowlist) principal_id
    then allowed
    else denied
        (text "principal '" ++ (principal_id ++ text "' is not on REVIEW_AGENT_FEEDBACK_ALLOWLIST"))

unfoldable pub is_allowed_topic : SnsMessage → (allowlist : List Text) → Bool
unfolding has
is_allowed_topic envelope [] = false
is_allowed_topic envelope (t ∷ allowlist) = has (t ∷ allowlist) envelope.topic_arn

abbrev pub ignoring : Outside → Text → Reply
ignoring w reason = (ok (ignored reason), w)

module _ (deps : CodecommitWebhookDeps) where
  abbrev pub sent : JobMessage → Outside → Result Text Text → Reply
  sent m w (err e) = (err e, w)
  sent m w (ok id) = (ok (enqueued id), record w { queue = w.queue ++ (m ∷ []) })

  abbrev pub send : Outside → Option JobMessage → Reply
  send w none = ignoring w (text "missing repositoryName/pullRequestId")
  send w (some m) = sent m w (deps.enqueue m)

  abbrev pub counted : FeedbackCommand → FeedbackCommandOutcome → ℕ → Outside → Reply
  counted fb outcome number w = (
    ok (feedback_command fb.kind outcome fb.fp_prefix number),
    record w { metrics = w.metrics ++ (record { kind = fb.kind; outcome = outcome } ∷ []) },
  )

  abbrev pub outcome_of : FeedbackAuthzResult → FeedbackCommandOutcome
  outcome_of allowed = recorded
  outcome_of (denied reason) = unauthorized

  abbrev pub resolved : FeedbackCommand → Text → Outside → Option Text → Option ℕ → Reply
  resolved fb principal w none number = counted fb unresolved (or_default number 0) w
  resolved fb principal w (some repo) none = counted fb unresolved 0 w
  resolved fb principal w (some repo) (some number) =
      counted fb (outcome_of (check_code_commit_feedback_authz (allowlist_of deps) principal))
        number w

  unfoldable pub handle_codecommit_feedback_command :
      FeedbackCommand → CodecommitEvent → Outside → Reply
  unfolding check_code_commit_feedback_authz parse_allowlist
  handle_codecommit_feedback_command fb ev w =
      resolved fb (or_default ev.principal_id []) w (pick_repository_name ev) (pick_pr_number ev)

  abbrev pub confirmed : Outside → Result Text (Bool × ℕ) → Reply
  confirmed w (err e) = (err e, w)
  confirmed w (ok (true, status)) = (ok subscription_confirmed, w)
  confirmed w (ok (false, status)) = (ok (subscription_failed status), w)

  abbrev pub confirm : Outside → Option Text → Reply
  confirm w none = ignoring w (text "missing SubscribeURL")
  confirm w (some []) = ignoring w (text "missing SubscribeURL")
  confirm w (some (c ∷ url)) =
      confirmed (record w { fetched = w.fetched ++ ((c ∷ url) ∷ []) })
        (deps.confirm_fetch (c ∷ url))

  abbrev pub commanded : CodecommitEvent → Text → Outside → Option Text → Reply
  commanded ev account w none = ignoring w (text "no agent command")
  commanded ev account w (some []) = ignoring w (text "no agent command")
  commanded ev account w (some (c ∷ command)) =
      if text_eq (c ∷ command) (text "review")
      then send w
          (build_codecommit_job_message deps.language ev (text "comment.command") deps.now account)
      else (ok (noop (text "command '" ++ ((c ∷ command) ++ text "' not yet implemented"))), w)

  abbrev pub commented : CodecommitEvent → Text → Text → Outside → Option FeedbackCommand → Reply
  commented ev account body w (some fb) = handle_codecommit_feedback_command fb ev w
  commented ev account body w none =
      commanded ev account w (parse_command deps.language.to_lower_case body)

  abbrev pub comment_text : CodecommitEvent → Text
  comment_text ev = or_default ev.comment_content (or_default ev.notification_body [])

  unfoldable pub dispatch : CodecommitEvent → (name account : Text) → Outside → Reply
  unfolding handle_codecommit_feedback_command text_eq
  dispatch ev name account w =
      if text_eq name (text "pullRequestCreated")
      then send w (
          build_codecommit_job_message deps.language ev (text "pull_request.opened") deps.now
            account)
      else if has
          (text "pullRequestSourceBranchUpdated" ∷ text "pullRequestSourceReferenceUpdated" ∷ [])
          name
      then send w (
          build_codecommit_job_message deps.language ev (text "pull_request.synchronize") deps.now
            account)
      else if text_eq name (text "commentOnPullRequest")
      then commented ev account (comment_text ev) w
          (parse_feedback_command deps.language.to_lower_case (comment_text ev))
      else ignoring w (text "unhandled codecommit event '" ++ (name ++ text "'"))

  abbrev pub account_reason : Text
  account_reason = text "missing or non-numeric EventBridge account (required for installationId)"

  abbrev pub with_account : CodecommitEvent → (name : Text) → Outside → Option Text → Reply
  with_account ev name w none = ignoring w account_reason
  with_account ev name w (some account) =
      if is_account account then dispatch ev name account w else ignoring w account_reason

  abbrev pub named : CodecommitEvent → Option Text → Outside → Option Text → Reply
  named ev account w none = ignoring w (text "malformed codecommit event")
  named ev account w (some name) = with_account ev name w account

  abbrev pub extracted : Outside → Option (CodecommitEvent × Option Text) → Reply
  extracted w none = ignoring w (text "malformed codecommit event")
  extracted w (some (ev, account)) = named ev account w ev.event

  abbrev pub notified : Outside → Option Text → Reply
  notified w none = ignoring w (text "missing SNS Message")
  notified w (some []) = ignoring w (text "missing SNS Message")
  notified w (some (c ∷ t)) = extracted w (extract_codecommit_event (deps.parse_json (c ∷ t)))

  abbrev pub by_type : SnsMessage → Outside → SnsMessageType → Reply
  by_type envelope w notification = notified w envelope.message
  by_type envelope w _ = confirm w envelope.subscribe_url

  abbrev pub forbidden_reason : SnsMessage → List Text → Text
  forbidden_reason envelope [] =
      text "REVIEW_AGENT_SNS_TOPIC_ARNS is unset; the receiver is fail-closed by design"
  forbidden_reason envelope (t ∷ allowlist) =
      text "TopicArn '" ++ (envelope.topic_arn ++ text "' is not in the configured allowlist")

  abbrev pub topics : List Text
  topics = or_default deps.allowed_topic_arns []

  unfoldable pub handle_codecommit_webhook : SnsMessage → Outside → Reply
  unfolding dispatch is_allowed_topic
  handle_codecommit_webhook envelope w =
      if is_allowed_topic envelope topics
      then by_type envelope w envelope.type_of
      else (ok (forbidden (forbidden_reason envelope topics)), w)
