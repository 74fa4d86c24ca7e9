-- ===== src/Server/Webhook/Tests.antt =====
-- Events of one pull request, against two tables in memory.
mod Memory
use review_agent.Common.{
  ℕ, ◌+◌, ◌≡◌, refl, Bool, true, false, Option, none, some, List, [], ◌∷◌, ◌++◌, Text, text,
  text_eq, has, decimal, Result, ok, err, arith,
}
use review_agent.Core.Queue.{github, JobMessage, is_job_message, sized, optional}
use review_agent.Server.ParseCommand.{
  SlashCommand, review, skip, resume, parse_slash_command, parse_feedback_command,
}
use review_agent.Server.Webhook.Bodies.{
  EventName, pull_request, issue_comment, installation, EventBody,
}
use review_agent.Server.Webhook.Deps.{
  AuthzInput, FeedbackAuthzResult, allowed, WebhookHandlerDeps, Language, World,
}
use review_agent.Server.Webhook.Shared.{
  WebhookResult, ignored, enqueued, noop, has_skip_marker, check_command_authz,
  build_job_message_with_scope,
}
use review_agent.Server.Webhook.{handle_command, handle_webhook}
use review_agent.Server.Webhook.Comments.{handle_slash_command}
use review_agent.Server.Webhook.Pushes.{
  handle_push, handle_action, handle_pull_request, has_skip_label,
}
use review_agent.Server.Webhook.Authorised.{CanWrite}
use review_agent.Server.Webhook.Jobs.{IsJob}
use review_agent.Server.Webhook.Effects.{Allowed, handle_webhook-Allowed}
use review_agent.Server.Webhook.Pausing.{IsCommand, pauses, resumes}
use review_agent.Server.Webhook.Guards.{IsPush}
use review_agent.Server.Webhook.Paused.{skip-push, resume-push, flag-review}
use review_agent.Server.Webhook.Lifecycle.{Ends, Status, suspend, lifecycle_of, handle_webhook-Ends}
use review_agent.Server.Webhook.Schema.{build_job_message_with_scope-is_job_message}
use review_agent.Server.Webhook.Tests.Memory.{
  Tables, set_flag, client, client-IsStore, client-IsTable, row_of,
}

abbrev lang : Language
lang = record { to_lower_case = λ t. t; to_iso_string = λ n. text "2026-11-26T00:00:00.000Z" }

abbrev check : AuthzInput → Result Text FeedbackAuthzResult
check i = ok allowed

abbrev deps : ℕ → WebhookHandlerDeps Tables
deps now = record {
  enqueue = λ m. ok (text "m1");
  now = λ k. now;
  check_authz = some check;
  handle_conversation = none;
  get_bot_login = none;
  db = some client;
  trigger_config = none;
  debounce_ms = none;
}

-- an event of pull request 7 of `o/r`, with a comment
abbrev event : Text → Text → EventBody
event action comment = record {
  action = some action;
  installation = some (record { id = some 5; app_id = none; account = none });
  pull_request = some (record {
    number = some 7;
    draft = false;
    head_sha = none;
    title = none;
    body = none;
    labels = [];
  });
  repository = some (record { owner_login = some (text "o"); name = some (text "r") });
  label_name = none;
  comment = some (record {
    body = some comment;
    user_login = none;
    id = some 9;
    in_reply_to_id = none;
    diff_hunk = none;
  });
  sender_login = some (text "ann");
  issue = some (record { is_pull_request = true; number = some 7 });
  review_id = none;
  reaction_content = none;
}

abbrev world : World Tables
world = record {
  ticks = 0;
  database = record {
    states = λ i p. some (record { updated_at = 10; paused = false });
    installations = λ i. some (record {
      app_id = 1;
      account_login = text "o";
      account_type = text "User";
      setup_action = text "install";
      suspended_at = none;
      updated_at = 10;
    });
  };
  queue = [];
  conversations = [];
  metrics = [];
}

can_write : (now : ℕ) (action comment : Text) → CanWrite (deps now) (event action comment)
can_write now action comment = record {
  input = record { owner = text "o"; repo = text "r"; username = text "ann" };
  check = check;
  named = refl;
  wired = refl;
  allows = refl;
}

skip-IsCommand : IsCommand lang (deps 100) skip (event [] (text "/skip"))
unfolding parse_slash_command parse_feedback_command
skip-IsCommand = record {
  commented = refl;
  no_feedback = refl;
  parsed = refl;
  can_write = can_write 100 [] (text "/skip");
}

resume-IsCommand : IsCommand lang (deps 200) resume (event [] (text "/resume"))
unfolding parse_slash_command parse_feedback_command
resume-IsCommand = record {
  commented = refl;
  no_feedback = refl;
  parsed = refl;
  can_write = can_write 200 [] (text "/resume");
}

review-IsCommand : IsCommand lang (deps 300) (review none) (event [] (text "/review"))
unfolding parse_slash_command parse_feedback_command
review-IsCommand = record {
  commented = refl;
  no_feedback = refl;
  parsed = refl;
  can_write = can_write 300 [] (text "/review");
}

synchronize-IsPush : IsPush (event (text "synchronize") [])
unfolding has text_eq
synchronize-IsPush = record { action = text "synchronize"; acted = refl; pushed = refl }

-- the tables in memory after the flag of the pull request was set
abbrev flagged_at : Bool → ℕ → Tables
flagged_at paused now = set_flag world.database 5 (text "o/r#7") paused now

-- the worlds after the two commands, and after a second comment
abbrev after : ℕ → Text → World Tables
after now comment = (handle_webhook lang (deps now) issue_comment (event [] comment) world).1

handle_webhook-Allowed_example :
    Allowed lang
      (deps 300)
      (event [] (text "/review"))
      issue_comment
      world
      (after 300 (text "/review"))
handle_webhook-Allowed_example =
    handle_webhook-Allowed lang (deps 300) (event [] (text "/review")) issue_comment world

skip-push_example :
    (reason : Text) × (handle_webhook lang
        (deps 150)
        pull_request
        (event (text "synchronize") [])
        (after 100 (text "/skip"))
      ≡ (ok (ignored reason), after 100 (text "/skip")))
unfolding decimal
skip-push_example =
    skip-push lang client client-IsStore 5 (text "o/r#7") (deps 100) (event [] (text "/skip")) world
      (flagged_at true 100) (record { updated_at = 10; paused = false }) refl refl (deps 150)
      (event (text "synchronize") []) (after 100 (text "/skip")) refl skip-IsCommand refl
      synchronize-IsPush refl

resume-push_example :
    (m : JobMessage) × (n : Text) × ((handle_webhook lang
        (deps 300)
        pull_request
        (event (text "synchronize") [])
        (after 200 (text "/resume"))).0
      ≡ ok (enqueued n))
    × ((handle_webhook lang
          (deps 300)
          pull_request
          (event (text "synchronize") [])
          (after 200 (text "/resume"))).1.queue
        ≡ (after 200 (text "/resume")).queue ++ (m ∷ []))
    × IsJob (event (text "synchronize") []) m
unfolding decimal has_skip_marker has_skip_label
resume-push_example =
    resume-push lang client client-IsStore 5 (text "o/r#7") (deps 200) (event [] (text "/resume"))
      world (flagged_at false 200) (record { updated_at = 10; paused = false }) refl refl (deps 300)
      (event (text "synchronize") []) (after 200 (text "/resume")) refl resume-IsCommand refl
      synchronize-IsPush refl refl refl refl refl (λ m. (text "m1", refl))

flag-review_example :
    ((handle_webhook lang
        (deps 300)
        issue_comment
        (event [] (text "/review"))
        (after 200 (text "/resume"))).0
      ≡ ok (ignored (text "debounced: review already in flight")))
    × ((handle_webhook lang
          (deps 300)
          issue_comment
          (event [] (text "/review"))
          (after 200 (text "/resume"))).1.queue
        ≡ (after 200 (text "/resume")).queue)
unfolding decimal
flag-review_example =
    flag-review lang client client-IsStore 5 (text "o/r#7") (deps 200) (event [] (text "/resume"))
      world (flagged_at false 200) (record { updated_at = 10; paused = false }) refl refl (deps 300)
      (event [] (text "/review")) (after 200 (text "/resume")) refl resume false resumes
      resume-IsCommand refl none review-IsCommand refl (omega arith)

handle_webhook-Ends_example :
    Ends client row_of client-IsTable
      (some suspend)
      5
      400
      world
      (handle_webhook lang (deps 400) installation (event (text "suspend") []) world)
unfolding lifecycle_of
handle_webhook-Ends_example =
    handle_webhook-Ends client row_of client-IsTable lang (deps 400) (event (text "suspend") [])
      world 5 refl refl

-- the message of `/review src/a.ts` on that pull request
abbrev scoped_job : JobMessage
scoped_job = record {
  job_id = text "o/r#7@300";
  installation_id = text "5";
  pr_ref = record {
    platform = github;
    owner = text "o";
    repo = text "r";
    number = 7;
    head_sha = none;
  };
  triggered_by = text "comment.command";
  enqueued_at = text "2026-11-26T00:00:00.000Z";
  path_scope = some (text "src/a.ts" ∷ []);
}

build_job_message_with_scope-is_job_message_example : is_job_message (λ t. true) scoped_job ≡ true
unfolding build_job_message_with_scope decimal has text_eq
build_job_message_with_scope-is_job_message_example =
    build_job_message_with_scope-is_job_message (λ t. true) lang
      (event [] (text "/review src/a.ts")) (text "comment.command") 300 (some (text "src/a.ts"))
      scoped_job refl refl
      (refl, (refl, (refl, (refl, (refl, (refl, (refl, (refl, (refl, tt))))))))) refl (omega arith)
      (omega arith) (omega arith) (omega arith) refl

marked_push :
    (handle_webhook lang
      (deps 150)
      pull_request
      (record (event (text "opened") []) {
        pull_request = some (record {
          number = some 7;
          draft = false;
          head_sha = none;
          title = some (text "wip [Skip Review]");
          body = none;
          labels = [];
        });
      })
      world).0
    ≡ ok (ignored (text "[skip review] marker in PR title/body"))
unfolding handle_webhook handle_pull_request handle_action handle_push has text_eq has_skip_marker
marked_push = refl

no_such_user :
    (handle_webhook lang
      (record (deps 100) { check_authz = none })
      issue_comment
      (event [] (text "/skip"))
      world).0
    ≡ ok (ignored (text "unauthorized command"))
unfolding handle_webhook handle_command parse_feedback_command parse_slash_command
    handle_slash_command check_command_authz
no_such_user = refl
