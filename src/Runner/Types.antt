-- ===== src/Runner/Types.antt =====
-- packages/llm/src/types.ts and packages/runner/src/types.ts: what the model returns and what the
-- review takes and gives.
use review_agent.Common.{ℕ, Option, List, Text}
use review_agent.Core.Review.{Severity, Side, Confidence, Category, InlineComment, ReviewEvent}
use review_agent.Runner.Effects.{Issue}

-- `Omit<InlineComment, 'fingerprint'>`
pub record ReviewOutputComment : Type 0 where
  pub path : Text
  pub line : ℕ
  pub side : Side
  pub body : Text
  pub severity : Severity
  pub category : Option Category
  pub confidence : Option Confidence
  pub rule_id : Option Text
  pub suggestion : Option Text

-- `{ ...c, fingerprint: fp }`
abbrev pub with_fingerprint : ReviewOutputComment → Text → InlineComment
with_fingerprint c fp = record {
  path = c.path;
  line = c.line;
  side = c.side;
  body = c.body;
  fingerprint = fp;
  severity = c.severity;
  category = c.category;
  confidence = c.confidence;
  rule_id = c.rule_id;
  suggestion = c.suggestion;
}

pub record FingerprintInput : Type 0 where
  pub path : Text
  pub line : ℕ
  pub rule_id : Text
  pub suggestion_type : Text

pub data Summary : Type 0 where
  model_summary : Text → Summary
  max_files_skip max_diff_lines_skip : (count cap : ℕ) → Summary
  url_allowlist_abort schema_abort : Summary

pub data ExclusionReason : Type 0 where
  path_filter max_files_cap max_diff_lines_cap : ExclusionReason

pub record ExcludedFile : Type 0 where
  pub path : Text
  pub reason : ExclusionReason

pub data Cap : Type 0 where
  max_files max_diff_lines : Cap

pub record ExclusionReport : Type 0 where
  pub excluded_files : List ExcludedFile
  pub caps_applied : List Cap

pub data ReviewAbortReason : Type 0 where
  url_allowlist schema_violation max_files_exceeded max_diff_lines_exceeded : ReviewAbortReason

pub record Aborted : Type 0 where
  pub reason : ReviewAbortReason
  pub internal_issues : List Issue

pub record RunnerResult : Type 0 where
  pub comments : List InlineComment
  pub summary : Summary
  pub cost : ℕ
  pub tokens_input : ℕ
  pub tokens_output : ℕ
  pub model : Text
  pub provider : Text
  pub dropped_duplicates : ℕ
  pub dropped_by_feedback : Option ℕ
  pub dropped_by_ruleset : ℕ
  pub dropped_by_suppression : Option ℕ
  pub tool_calls : ℕ
  pub review_event : ReviewEvent
  pub exclusion_report : Option ExclusionReport
  pub aborted : Option Aborted

pub data FactType : Type 0 where
  accepted_pattern rejected_finding arch_decision suppression_rule : FactType

pub record FactRow : Type 0 where
  pub fact_type : FactType
  pub fact_text : Text
