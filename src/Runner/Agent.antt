-- ===== src/Runner/Agent.antt =====
-- packages/runner/src/agent.ts: `runReviewInner`. The composition of the prompt, the prefetched
-- files and the observability hooks have no part in the result and are left out.
pub mod Filters
pub mod Job
pub mod Caps
pub mod Generate
pub mod Ends
pub mod Posted
pub mod Limits
pub mod Logs
pub mod Secrets
pub mod Calls
pub mod Tests
use review_agent.Common.{
  ℕ, max, Bool, true, false, Option, none, some, or_default, List, [], ◌∷◌, ◌++◌, map, Text, length,
  filter, if◌then◌else◌, Result, ok, err, starts_with, any, text,
}
use review_agent.Core.Review.{
  low, InlineComment, Severity, comment, RequestChangesThreshold, compute_review_event,
}
use review_agent.Core.Glob.{Node, GlobError}
use review_agent.Runner.DiffFilter.{reassemble_diff, compile_filters}
use review_agent.Runner.Effects.{
  RunError, glob, secret_leak, schema_validation, LeakPhase, Issue, RunState, Run, continue, ◌>>=◌,
  ◌>>◌, pure, raise,
}
use review_agent.Runner.CostGuard.{ReviewOutput}
use review_agent.Runner.Dedup.{DedupState, dedup_comments, default_suggestion_type}
use review_agent.Runner.Gitleaks.{
  GitleaksFinding, AbortDecision, proceed, too_many, high_confidence, reason_of,
  should_abort_review, apply_redactions, unique_rule_ids,
}
use review_agent.Runner.Types.{
  Summary, model_summary, url_allowlist_abort, schema_abort, ExcludedFile, ExclusionReport,
  ReviewAbortReason, url_allowlist, schema_violation, RunnerResult, FactType, rejected_finding,
  FactRow,
}
use Filters.{
  meets_confidence, RulesetResult, apply_ruleset_filter, suppress, suppressed_count,
  extract_fingerprint,
}
use Job.{ReviewJob, ReviewDeps}
use Caps.{Admitted, CapOutcome, skipped, admitted, cap_pipeline}
use Generate.{Output, generate_review}

abbrev is_rejected : FactType → Bool
is_rejected rejected_finding = true
is_rejected _ = false

abbrev pub add : Option Text → List Text → List Text
add none fps = fps
add (some fp) fps = fp ∷ fps

-- the fingerprints of the rows that pass the test, and that carry one
unfoldable pub fact_fingerprints : (FactRow → Bool) → List FactRow → List Text
fact_fingerprints p [] = []
fact_fingerprints p (r ∷ rows) =
    let rest = fact_fingerprints p rows in
    if p r then add (extract_fingerprint r.fact_text) rest else rest

abbrev pub rows_of : Option (Result RunError (List FactRow)) → Run (List FactRow)
rows_of none s = (ok [], s)
rows_of (some answer) s = (answer, s)

abbrev pub paragraphs : Text → List Text → Text
paragraphs t [] = t
paragraphs t (u ∷ us) = t ++ (10 ∷ 10 ∷ paragraphs u us)

-- `shouldAbortReview`, and the error if it says so
unfoldable pub refuse_secrets : LeakPhase → List GitleaksFinding → Run (Unit {0})
unfolding reason_of
refuse_secrets phase findings =
    let leak = secret_leak phase (length findings) (unique_rule_ids findings) in
    elim (should_abort_review findings) [
      | proceed ↦ pure tt
      | too_many n ↦ raise (leak (reason_of (too_many n)))
      | high_confidence rule ↦ raise (leak (reason_of (high_confidence rule)))
    ]

abbrev pub report_of : List ExcludedFile → Option ExclusionReport
report_of [] = none
report_of (f ∷ files) = some (record { excluded_files = f ∷ files; caps_applied = [] })

-- `URL_ALLOWLIST_ISSUE_PREFIX`
abbrev url_allowlist_issue_prefix : Text
url_allowlist_issue_prefix = text "URL not in allowlist:"

abbrev about_url : Issue → Bool
about_url i = starts_with url_allowlist_issue_prefix i.message

-- `classifyAbort`
unfoldable pub classify_abort : List Issue → ReviewAbortReason × Summary
unfolding starts_with
classify_abort issues =
    if any about_url issues
    then (url_allowlist, url_allowlist_abort)
    else (schema_violation, schema_abort)

abbrev pub redact : List GitleaksFinding → InlineComment → InlineComment
redact findings c = record c { body = apply_redactions c.body findings }

abbrev pub compiled : Result GlobError (List (List Node)) → Run (Unit {0})
compiled (ok patterns) = pure tt
compiled (err e) = raise (glob e)

-- `costState` and the tool-call counter start at 0
abbrev pub start : RunState
start = record { total_cost = 0; tool_calls = 0; log = [] }

abbrev pub rejected_fingerprints : List FactRow → List Text
rejected_fingerprints = fact_fingerprints (λ r. is_rejected r.fact_type)

abbrev pub suppressed_fingerprints : List FactRow → List Text
suppressed_fingerprints = fact_fingerprints (λ r. true)

module _ (job : ReviewJob) (deps : ReviewDeps) where
  unfoldable pub deduped : List Text → Output → DedupState
  deduped rejected out =
      dedup_comments deps.fingerprint default_suggestion_type out.comments job.previous_state
        rejected

  abbrev pub confident : List InlineComment → List InlineComment
  confident = filter (λ c. meets_confidence c.confidence (or_default job.min_confidence low))

  unfoldable pub ruled : List Text → Output → RulesetResult
  ruled rejected out = apply_ruleset_filter (confident (deduped rejected out).kept) job.rules

  -- `filteredKept`
  unfoldable pub filtered_kept : (rejected suppressed : List Text) → Output → List InlineComment
  filtered_kept rejected suppressed out = suppress suppressed (ruled rejected out).kept

  unfoldable pub output_findings : Output → List InlineComment → List GitleaksFinding
  output_findings out kept = deps.scan_content (paragraphs out.summary (map (λ c. c.body) kept))

  -- what the review posts; without findings the redactions change nothing
  unfoldable pub posted :
      (rejected suppressed : List Text)
      → List ExcludedFile
      → Output
      → List InlineComment
      → List GitleaksFinding
      → (tool_calls total_cost : ℕ) → RunnerResult
  posted rejected suppressed exclusions out kept findings tool_calls total_cost =
      let comments = map (redact findings) kept in
      record {
        comments = comments;
        summary = model_summary (apply_redactions out.summary findings);
        cost = total_cost;
        tokens_input = out.tokens_input;
        tokens_output = out.tokens_output;
        model = deps.model;
        provider = deps.provider;
        dropped_duplicates = (deduped rejected out).dropped_count;
        dropped_by_feedback = some (deduped rejected out).dropped_by_feedback;
        dropped_by_ruleset = (ruled rejected out).dropped;
        dropped_by_suppression =
            if deps.suppression_loader
            then some (suppressed_count suppressed (ruled rejected out).kept)
            else none;
        tool_calls = max (or_default out.tool_calls 0) tool_calls;
        review_event =
            compute_review_event (map (λ c. c.severity) comments)
              (or_default job.request_changes_on RequestChangesThreshold.critical);
        exclusion_report = report_of exclusions;
        aborted = none;
      }

  unfoldable pub finish :
      (rejected suppressed : List Text) → List ExcludedFile → Output → Run RunnerResult
  unfolding posted
  finish rejected suppressed exclusions out s =
      let kept = filtered_kept rejected suppressed out in
      let findings = output_findings out kept in
      (refuse_secrets LeakPhase.output findings >>= λ _ s'. (
        ok (posted rejected suppressed exclusions out kept findings s'.tool_calls s'.total_cost),
        s',
      ))
        s

  unfoldable pub abort_result : List ExcludedFile → List Issue → RunState → RunnerResult
  unfolding classify_abort
  abort_result exclusions issues s = record {
    comments = [];
    summary = (classify_abort issues).1;
    cost = s.total_cost;
    tokens_input = 0;
    tokens_output = 0;
    model = deps.model;
    provider = deps.provider;
    dropped_duplicates = 0;
    dropped_by_feedback = none;
    dropped_by_ruleset = 0;
    dropped_by_suppression = none;
    tool_calls = s.tool_calls;
    review_event = comment;
    exclusion_report = report_of exclusions;
    aborted = some (record { reason = (classify_abort issues).0; internal_issues = issues });
  }

  -- the `try` round the middlewares: a schema error becomes an aborted result
  unfoldable pub answered :
      (rejected suppressed : List Text)
      → List ExcludedFile
      → Result RunError Output × RunState
      → Result RunError RunnerResult × RunState
  answered rejected suppressed exclusions (ok out, s) = finish rejected suppressed exclusions out s
  answered rejected suppressed exclusions (err (schema_validation issues), s) =
      (ok (abort_result exclusions issues s), s)
  answered rejected suppressed exclusions (err e, s) = (err e, s)

  abbrev pub effective_diff : Admitted → Text
  effective_diff a = if a.filters_applied then reassemble_diff a.filtered else job.diff_text

  unfoldable pub review_admitted : (rejected suppressed : List Text) → Admitted → Run RunnerResult
  unfolding answered
  review_admitted rejected suppressed a = do
    refuse_secrets LeakPhase.diff (deps.scan_content (effective_diff a))
    compiled (compile_filters job.deny_paths)
    λ s. answered rejected suppressed a.exclusions (generate_review job deps (effective_diff a) s)

  unfoldable pub review_capped :
      (rejected suppressed : List Text) → Result GlobError CapOutcome → Run RunnerResult
  review_capped rejected suppressed (err e) = raise (glob e)
  review_capped rejected suppressed (ok (skipped result)) = pure result
  review_capped rejected suppressed (ok (admitted a)) = review_admitted rejected suppressed a

  abbrev pub review : Run RunnerResult
  review = do
    history ← rows_of deps.history
    suppressions ← rows_of deps.suppressions
    review_capped (rejected_fingerprints history) (suppressed_fingerprints suppressions)
        (cap_pipeline job deps)

  unfoldable pub run_review_inner : Result RunError RunnerResult × RunState
  unfolding review_capped fact_fingerprints
  run_review_inner = review start
