-- ===== src/Runner/Agent/Tests.antt =====
-- Reviews of a diff of one file.
use review_agent.Common.{
  ◌≤◌, ◌≡◌, refl, arith, false, none, some, [], ◌∷◌, ◌++◌, All, text, decimal, text_eq, ok, err,
}
use review_agent.Core.Review.{right, Severity, compute_review_event, request_changes, comment}
use review_agent.Core.Cost.{decide_cost_action}
use review_agent.Runner.DiffFilter.{
  parse_diff_by_file, apply_path_filters, count_diff_lines, reassemble_diff,
}
use review_agent.Core.Glob.{glob_to_reg_exp, test}
use review_agent.Runner.Effects.{LeakPhase, secret_leak, Issue, estimated, generated}
use review_agent.Runner.CostGuard.{ReviewOutput, guarded}
use review_agent.Runner.Dedup.{dedup_comments}
use review_agent.Runner.Gitleaks.{
  GitleaksFinding, should_abort_review, reason_of, unique_rule_ids, apply_redactions,
}
use review_agent.Runner.Types.{
  ReviewOutputComment, with_fingerprint, model_summary, schema_abort, schema_violation,
  RunnerResult,
}
use review_agent.Runner.Agent.Job.{ReviewJob, ReviewDeps}
use review_agent.Runner.Agent.Caps.{cap_pipeline}
use review_agent.Runner.Agent.Caps.Reports.{Capped, IsRefused, cap_pipeline-Capped}
use review_agent.Runner.Agent.Filters.{apply_ruleset_filter, suppress, meets_confidence}
use review_agent.Runner.Agent.Generate.{generate_review}
use review_agent.Runner.Agent.{
  review_admitted, refuse_secrets, finish, output_findings, posted, deduped, ruled, filtered_kept,
  classify_abort, abort_result, rejected_fingerprints, suppressed_fingerprints, start,
  run_review_inner,
}
use review_agent.Runner.Agent.Ends.{read}
use review_agent.Runner.Agent.Posted.{IsPosted, run_review_inner-IsPosted}
use review_agent.Runner.Agent.Limits.{run_review_inner-IsRefused, run_review_inner-within_cap}
use review_agent.Runner.Agent.Secrets.{IsSafe, run_review_inner-secret}
use review_agent.Runner.Agent.Calls.{generations, run_review_inner-calls}

abbrev pub job : ReviewJob
job = record {
  diff_text = text "--- a.ts" ++ (10 ∷ text "+x");
  path_filters = [];
  deny_paths = [];
  max_files = 5;
  max_diff_lines = 9;
  cost_cap = 100;
  previous_state = none;
  min_confidence = none;
  request_changes_on = none;
  rules = none;
}

abbrev pub finding : ReviewOutputComment
finding = record {
  path = text "a.ts";
  line = 1;
  side = right;
  body = text "b";
  severity = Severity.critical;
  category = none;
  confidence = none;
  rule_id = none;
  suggestion = none;
}

abbrev pub output : ReviewOutput ReviewOutputComment
output = record {
  comments = finding ∷ finding ∷ [];
  summary = text "s";
  tokens_input = 5;
  tokens_output = 6;
  cost = 30;
  tool_calls = none;
}

abbrev pub deps : ReviewDeps
deps = record {
  model = text "m";
  provider = text "p";
  generate = λ diff retry. record { answer = ok output; tool_calls = 1 };
  estimate_cost = ok 10;
  validate = λ out. [];
  scan_content = λ t. [];
  fingerprint = λ i. i.line ∷ [];
  history = none;
  suppressions = none;
  suppression_loader = false;
}

abbrev issue : Issue
issue = record { path = text "x"; message = text "m" }

abbrev rejecting : ReviewDeps
rejecting = record deps { validate = λ out. issue ∷ [] }

abbrev token : GitleaksFinding
token = record { rule_id = text "r"; secret = text "t"; tags = [] }

abbrev leaking : ReviewDeps
leaking = record deps { scan_content = λ t. token ∷ token ∷ token ∷ token ∷ [] }

abbrev pub one_comment : RunnerResult
one_comment = record {
  comments = with_fingerprint finding (1 ∷ []) ∷ [];
  summary = model_summary (text "s");
  cost = 30;
  tokens_input = 5;
  tokens_output = 6;
  model = text "m";
  provider = text "p";
  dropped_duplicates = 1;
  dropped_by_feedback = some 0;
  dropped_by_ruleset = 0;
  dropped_by_suppression = none;
  tool_calls = 1;
  review_event = request_changes;
  exclusion_report = none;
  aborted = none;
}

reviewed : (run_review_inner job deps).0 ≡ ok one_comment
unfolding run_review_inner cap_pipeline apply_path_filters parse_diff_by_file count_diff_lines
    review_admitted refuse_secrets should_abort_review generate_review guarded decide_cost_action
    finish output_findings posted deduped dedup_comments text_eq ruled filtered_kept
    apply_ruleset_filter suppress meets_confidence compute_review_event apply_redactions
reviewed = refl

run_review_inner-IsPosted_example :
    IsPosted job deps
      (rejected_fingerprints (read deps.history))
      (suppressed_fingerprints (read deps.suppressions))
      one_comment
run_review_inner-IsPosted_example = run_review_inner-IsPosted job deps reviewed refl

run_review_inner-within_cap_example : one_comment.cost ≤ 100
run_review_inner-within_cap_example = run_review_inner-within_cap job deps (omega arith) reviewed

abbrev rejected_twice : RunnerResult
rejected_twice = record {
  comments = [];
  summary = schema_abort;
  cost = 0;
  tokens_input = 0;
  tokens_output = 0;
  model = text "m";
  provider = text "p";
  dropped_duplicates = 0;
  dropped_by_feedback = none;
  dropped_by_ruleset = 0;
  dropped_by_suppression = none;
  tool_calls = 2;
  review_event = comment;
  exclusion_report = none;
  aborted = some (record { reason = schema_violation; internal_issues = issue ∷ [] });
}

given_up : (run_review_inner job rejecting).0 ≡ ok rejected_twice
unfolding run_review_inner cap_pipeline apply_path_filters parse_diff_by_file count_diff_lines
    review_admitted refuse_secrets should_abort_review generate_review guarded decide_cost_action
    finish output_findings classify_abort abort_result
given_up = refl

run_review_inner-IsRefused_example : IsRefused rejected_twice
run_review_inner-IsRefused_example = run_review_inner-IsRefused job rejecting given_up (λ q. cc)

run_review_inner-calls_example : generations (run_review_inner job rejecting).1.log ≤ 2
run_review_inner-calls_example = run_review_inner-calls job rejecting

secrets_stop :
    run_review_inner job leaking
    ≡ (err (secret_leak LeakPhase.diff 4 (text "r" ∷ []) (text "4 secret findings (>3)")), start)
unfolding run_review_inner cap_pipeline apply_path_filters parse_diff_by_file count_diff_lines
    review_admitted refuse_secrets should_abort_review unique_rule_ids text_eq reason_of decimal
secrets_stop = refl

abbrev filtered_job : ReviewJob
filtered_job = record job {
  diff_text = text "--- a.ts\n+x\n--- v/b\n-y";
  path_filters = text "v/**" ∷ [];
}

run_review_inner-secret_example :
    All (IsSafe filtered_job deps) (run_review_inner filtered_job deps).1.log
run_review_inner-secret_example = run_review_inner-secret filtered_job deps

the_kept_file_is_sent :
    (run_review_inner filtered_job deps).1.log
    ≡ estimated ∷ generated (text "--- a.ts\n+x") false ∷ []
unfolding run_review_inner cap_pipeline apply_path_filters parse_diff_by_file count_diff_lines
    review_admitted refuse_secrets should_abort_review generate_review guarded decide_cost_action
    finish output_findings posted deduped dedup_comments text_eq ruled filtered_kept
    apply_ruleset_filter suppress meets_confidence compute_review_event apply_redactions
    reassemble_diff glob_to_reg_exp test
the_kept_file_is_sent = refl

cap_pipeline-Capped_example :
    Capped job
      (parse_diff_by_file job.diff_text)
      (apply_path_filters (parse_diff_by_file job.diff_text) job.path_filters)
      (cap_pipeline job deps)
cap_pipeline-Capped_example = cap_pipeline-Capped job deps
