-- ===== src/Runner/FeedbackWriter/Tests.antt =====
-- Feedback on one finding, and the review after it.
use review_agent.Common.{
  ◌≡◌, ◌≢◌, refl, false, some, [], ◌∷◌, All, text, text_eq, starts_with, ok, err, ◌==◌, arith,
  if◌then◌else◌,
}
use review_agent.Core.Review.{compute_review_event}
use review_agent.Core.Cost.{decide_cost_action}
use review_agent.Runner.DiffFilter.{parse_diff_by_file, apply_path_filters, count_diff_lines}
use review_agent.Runner.CostGuard.{guarded}
use review_agent.Runner.Dedup.{dedup_comments}
use review_agent.Runner.Gitleaks.{should_abort_review, apply_redactions}
use review_agent.Runner.Types.{
  rejected_finding, RunnerResult, with_fingerprint, ReviewOutputComment,
}
use review_agent.Runner.Agent.Job.{ReviewDeps}
use review_agent.Runner.Agent.Caps.{cap_pipeline}
use review_agent.Runner.Agent.Filters.{
  apply_ruleset_filter, suppress, meets_confidence, extract_fingerprint,
}
use review_agent.Runner.Agent.Generate.{generate_review}
use review_agent.Runner.Agent.{
  review_admitted, refuse_secrets, finish, output_findings, posted, deduped, ruled, filtered_kept,
  fact_fingerprints, run_review_inner,
}
use review_agent.Runner.Agent.Tests.{job, deps, finding, output, one_comment}
use review_agent.Runner.FeedbackWriter.{
  maybe_create_suppression_rule, FeedbackEvent, FeedbackKind, thumbs_down, thumbs_up, dismissed,
  SuppressionOpts, limited, FeedbackWriterOptions, WriterState, rule_for, input_of, record_event,
  record_all, feedback_kind_to_fact_type, redacted,
}
use review_agent.Runner.FeedbackWriter.Limit.{Split, record_all-Split}
use review_agent.Runner.FeedbackWriter.Rules.{Decided, record_event-due}
use review_agent.Runner.FeedbackWriter.Learned.{run_review_inner-learned}

abbrev suppression : SuppressionOpts
suppression = record {
  suppress_after = 2;
  rejection_counter = λ asked i r fp. ok 2;
  suppression_loader = λ asked i r. ok (text "[fp:0c] old" ∷ []);
  suppression_writer = λ i. err (text "down");
}

abbrev opts : FeedbackWriterOptions
opts = record {
  writer = λ i. ok tt;
  quick_scan = λ t. [];
  max_writes_per_job = some (limited 1);
  suppression_opts = some suppression;
}

abbrev event : FeedbackKind → FeedbackEvent
event kind = record {
  installation_id = 5;
  repo = text "o/r";
  fingerprint = text "0a1b";
  kind = kind;
  fact_text = text "by ann";
}

abbrev fresh : WriterState
fresh = record { count = 0; asked = []; dropped = []; rules = []; created = [] }

record_all-Split_example :
    Split opts
      (event thumbs_down ∷ [])
      (event thumbs_up ∷ event dismissed ∷ [])
      fresh
      (record_all opts (event thumbs_down ∷ event thumbs_up ∷ event dismissed ∷ []) fresh)
record_all-Split_example =
    record_all-Split opts 1 refl (event thumbs_down ∷ event thumbs_up ∷ event dismissed ∷ []) fresh
      (omega arith)

record_event-due_example :
    Decided opts (event thumbs_down) fresh (record_event opts (event thumbs_down) fresh).1
record_event-due_example = record_event-due opts (event thumbs_down) fresh

one_rule :
    (record_event opts (event thumbs_down) fresh).1.rules
    ≡ rule_for (event thumbs_down) suppression 2 ∷ []
unfolding record_event feedback_kind_to_fact_type starts_with maybe_create_suppression_rule
one_rule = refl

-- the writer of the rule throws, and the event is recorded all the same
open_failure : (record_event opts (event thumbs_down) fresh).0 ≡ ok false
unfolding record_event
open_failure = refl

stored_text :
    (input_of opts (event dismissed)).fact
    ≡ record { fact_type = rejected_finding; fact_text = text "[fp:0a1b] by ann" }
unfolding feedback_kind_to_fact_type redacted
stored_text = refl

-- two findings of which one was rejected
abbrev other_finding : ReviewOutputComment
other_finding = record finding { line = 2 }

abbrev learned_deps : ReviewDeps
learned_deps = record deps {
  generate = λ diff retry. record {
    answer = ok (record output { comments = finding ∷ other_finding ∷ [] });
    tool_calls = 1;
  };
  fingerprint = λ i. if i.line == 1 then text "0a1b" else text "0c";
  history = some (ok ((input_of opts (event thumbs_down)).fact ∷ []));
}

abbrev learned : RunnerResult
learned = record one_comment {
  comments = with_fingerprint other_finding (text "0c") ∷ [];
  dropped_duplicates = 0;
  dropped_by_feedback = some 1;
}

learns : (run_review_inner job learned_deps).0 ≡ ok learned
unfolding run_review_inner cap_pipeline apply_path_filters parse_diff_by_file count_diff_lines
    review_admitted refuse_secrets should_abort_review generate_review guarded decide_cost_action
    finish output_findings posted deduped dedup_comments text_eq ruled filtered_kept
    apply_ruleset_filter suppress meets_confidence compute_review_event apply_redactions
    fact_fingerprints extract_fingerprint feedback_kind_to_fact_type redacted
learns = refl

run_review_inner-learned_example : All (λ c. c.fingerprint ≢ text "0a1b") learned.comments
run_review_inner-learned_example =
    run_review_inner-learned opts (event thumbs_down) (refl, (refl, (refl, (refl, tt)))) (λ e. cc e)
      (λ e. cc e) job learned_deps [] [] refl learns refl
