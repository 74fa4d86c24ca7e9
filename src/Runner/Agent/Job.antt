-- ===== src/Runner/Agent/Job.antt =====
-- What `runReview` of packages/runner/src/agent.ts is called with.
use review_agent.Common.{ℕ, Bool, Option, List, Text, Result}
use review_agent.Core.Review.{Confidence, ReviewState, RequestChangesThreshold}
use review_agent.Runner.Effects.{RunError, Issue}
use review_agent.Runner.CostGuard.{ReviewOutput}
use review_agent.Runner.Gitleaks.{GitleaksFinding}
use review_agent.Runner.Types.{ReviewOutputComment, FingerprintInput, FactRow}
use review_agent.Runner.Agent.Filters.{Ruleset}

-- the fields of the job that decide the result; those that only shape the prompt are left out
pub record ReviewJob : Type 0 where
  pub diff_text : Text
  pub path_filters : List Text
  pub deny_paths : List Text
  pub max_files : ℕ
  pub max_diff_lines : ℕ
  pub cost_cap : ℕ
  pub previous_state : Option ReviewState
  pub min_confidence : Option Confidence
  pub request_changes_on : Option RequestChangesThreshold
  pub rules : Option Ruleset

-- one call of the model: its answer, and how many tool calls it dispatched
pub record Attempt : Type 0 where
  pub answer : Result RunError (ReviewOutput ReviewOutputComment)
  pub tool_calls : ℕ

-- The model provider, the output schema, the secret scanner, the fingerprint and the tables, with
-- the answers that they give in this review; `generate diff true` is the call with the retry suffix.
-- A reader is absent unless both it and the evaluation context are given.
pub record ReviewDeps : Type 0 where
  pub model : Text
  pub provider : Text
  pub generate : (diff : Text) → Bool → Attempt
  pub estimate_cost : Result RunError ℕ
  pub validate : ReviewOutput ReviewOutputComment → List Issue
  pub scan_content : Text → List GitleaksFinding
  pub fingerprint : FingerprintInput → Text
  pub history : Option (Result RunError (List FactRow))
  pub suppressions : Option (Result RunError (List FactRow))
  pub suppression_loader : Bool
