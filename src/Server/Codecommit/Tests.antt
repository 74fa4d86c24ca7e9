-- ===== src/Server/Codecommit/Tests.antt =====
-- Deliveries of an event of pull request 12 of `repo`.
use review_agent.Common.{
  ◌≡◌, refl, Bool, true, false, none, some, List, [], ◌∷◌, Text, text, decimal, ok,
}
use review_agent.Core.Queue.{JobMessage, is_job_message}
use review_agent.Server.ParseCommand.{thumbs_up, parse_feedback_command}
use review_agent.Server.Webhook.Deps.{recorded}
use review_agent.Server.Sns.{
  SnsMessage, SnsMessageType, notification, subscription_confirmation, sha256,
}
use review_agent.Server.Codecommit.Event.{
  CodecommitEvent, Parsed, envelope, digits, parse_int, extract_codecommit_event,
  pick_repository_name, pick_pr_number, build_codecommit_job_message, is_account,
}
use review_agent.Server.Codecommit.{
  CodecommitWebhookDeps, subscription_confirmed, enqueued, feedback_command, Outside,
  handle_codecommit_webhook,
}
use review_agent.Server.Codecommit.Allowed.{IsAllowed, handle_codecommit_webhook-IsAllowed}

abbrev event : Text → Text → CodecommitEvent
event name comment = record {
  event = some name;
  pull_request_id = some (digits (text "12"));
  repository_name = none;
  repository_names = some (text "repo" ∷ []);
  source_commit = some (text "abcdef0");
  comment_content = some comment;
  notification_body = none;
  principal_id = some (text "ann");
}

-- the message is the name of the event, with a comment after a slash
abbrev parse : Text → Parsed
parse t = envelope (event t (text "/feedback accept")) (some (text "123456789012"))

abbrev deps : CodecommitWebhookDeps
deps = record {
  enqueue = λ m. ok (text "m1");
  now = 1000;
  confirm_fetch = λ url. ok (true, 200);
  feedback_allowlist_env = some (text "bob, ann ,");
  process_env = none;
  allowed_topic_arns = some (text "arn:1" ∷ []);
  language = record {
    to_lower_case = λ t. t;
    to_iso_string = λ n. text "2026-11-26T00:00:00.000Z";
  };
  parse_json = parse;
}

abbrev delivery : SnsMessageType → Text → Text → SnsMessage
delivery kind topic message = record {
  type_of = kind;
  message_id = text "id";
  topic_arn = topic;
  timestamp = text "t";
  signature = text "s";
  signature_version = sha256;
  signing_cert_url = text "https://sns.eu.amazonaws.com/c.pem";
  message = some message;
  subject = none;
  token = none;
  subscribe_url = some (text "https://sns.eu.amazonaws.com/confirm");
}

abbrev start : Outside
start = record { fetched = []; queue = []; metrics = [] }

abbrev created : SnsMessage
created = delivery notification (text "arn:1") (text "pullRequestCreated")

created_is_sent : (handle_codecommit_webhook deps created start).0 ≡ ok (enqueued (text "m1"))
unfolding handle_codecommit_webhook extract_codecommit_event is_account build_codecommit_job_message
created_is_sent = refl

abbrev parses : List JobMessage → Bool
parses [] = false
parses (m ∷ ms) = is_job_message (λ t. true) m

created_parses : parses (handle_codecommit_webhook deps created start).1.queue ≡ true
unfolding handle_codecommit_webhook extract_codecommit_event is_account build_codecommit_job_message
    is_job_message decimal
created_parses = refl

unlisted_is_forbidden :
    (handle_codecommit_webhook deps
      (delivery notification (text "arn:2") (text "pullRequestCreated"))
      start).1
    ≡ start
unfolding handle_codecommit_webhook
unlisted_is_forbidden = refl

confirmation :
    (handle_codecommit_webhook deps
      (delivery subscription_confirmation (text "arn:1") (text "x"))
      start).0
    ≡ ok subscription_confirmed
unfolding handle_codecommit_webhook
confirmation = refl

command_is_recorded :
    (handle_codecommit_webhook deps
      (delivery notification (text "arn:1") (text "commentOnPullRequest"))
      start).0
    ≡ ok (feedback_command thumbs_up recorded none 12)
unfolding handle_codecommit_webhook extract_codecommit_event is_account parse_feedback_command
    pick_repository_name pick_pr_number
command_is_recorded = refl

no_number : parse_int (text " 0012x") ≡ some 12
unfolding parse_int
no_number = refl

handle_codecommit_webhook-IsAllowed_example :
    IsAllowed deps start (handle_codecommit_webhook deps created start).1 created
handle_codecommit_webhook-IsAllowed_example = handle_codecommit_webhook-IsAllowed deps created start
