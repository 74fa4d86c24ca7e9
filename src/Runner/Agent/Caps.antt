-- ===== src/Runner/Agent/Caps.antt =====
-- The cap pipeline of `runReviewInner`: path filters, then the two size caps, before any call.
pub mod Reports
use review_agent.Common.{
  Bool, true, false, not, none, some, List, [], ◌∷◌, ◌++◌, map, Text, filter, any, length, text_eq,
  ltb, if◌then◌else◌, Result, ok, err,
}
use review_agent.Core.Review.{comment}
use review_agent.Core.Glob.{GlobError}
use review_agent.Runner.DiffFilter.{
  ParsedDiff, ParsedDiffFile, parse_diff_by_file, apply_path_filters, count_diff_lines,
}
use review_agent.Runner.Types.{
  Summary, max_files_skip, max_diff_lines_skip, ExclusionReason, path_filter, max_files_cap,
  max_diff_lines_cap, ExcludedFile, Cap, max_files, max_diff_lines, ExclusionReport,
  ReviewAbortReason, max_files_exceeded, max_diff_lines_exceeded, RunnerResult,
}
use review_agent.Runner.Agent.Job.{ReviewJob, ReviewDeps}

unfoldable pub build_cap_skip_result :
    ReviewDeps → ReviewAbortReason → Summary → ExclusionReport → RunnerResult
build_cap_skip_result deps reason summary report = record {
  comments = [];
  summary = summary;
  cost = 0;
  tokens_input = 0;
  tokens_output = 0;
  model = deps.model;
  provider = deps.provider;
  dropped_duplicates = 0;
  dropped_by_feedback = none;
  dropped_by_ruleset = 0;
  dropped_by_suppression = none;
  tool_calls = 0;
  review_event = comment;
  exclusion_report = some report;
  aborted = some (record { reason = reason; internal_issues = [] });
}

abbrev pub excluded : ExclusionReason → ParsedDiffFile → ExcludedFile
excluded reason f = record { path = f.path; reason = reason }

abbrev pub has_path : List ParsedDiffFile → Text → Bool
has_path files path = any (λ f. text_eq f.path path) files

-- `pathFilterExclusions`
unfoldable pub path_filter_exclusions : ParsedDiff → ParsedDiff × Bool → List ExcludedFile
path_filter_exclusions parsed (filtered, false) = []
path_filter_exclusions parsed (filtered, true) =
    map (excluded path_filter) (filter (λ f. not (has_path filtered.files f.path)) parsed.files)

-- what the rest of the review goes on with
pub record Admitted : Type 0 where
  pub filtered : ParsedDiff
  pub filters_applied : Bool
  pub exclusions : List ExcludedFile

pub data CapOutcome : Type 0 where
  skipped : RunnerResult → CapOutcome
  admitted : Admitted → CapOutcome

abbrev pub cap_report : List ExcludedFile → ExclusionReason → Cap → ParsedDiff → ExclusionReport
cap_report exclusions reason cap d = record {
  excluded_files = exclusions ++ map (excluded reason) d.files;
  caps_applied = cap ∷ [];
}

unfoldable pub check_caps :
    ReviewJob → ReviewDeps → (filtered : ParsedDiff) → Bool → List ExcludedFile → CapOutcome
unfolding build_cap_skip_result
check_caps job deps d applied exclusions =
    if ltb job.max_files (length d.files)
    then skipped (
        build_cap_skip_result deps max_files_exceeded
          (max_files_skip (length d.files) job.max_files)
          (cap_report exclusions max_files_cap max_files d))
    else if ltb job.max_diff_lines (count_diff_lines d)
    then skipped (
        build_cap_skip_result deps max_diff_lines_exceeded
          (max_diff_lines_skip (count_diff_lines d) job.max_diff_lines)
          (cap_report exclusions max_diff_lines_cap max_diff_lines d))
    else admitted (record { filtered = d; filters_applied = applied; exclusions = exclusions })

abbrev pub capped :
    ReviewJob
    → ReviewDeps
    → ParsedDiff
    → Result GlobError (ParsedDiff × Bool)
    → Result GlobError CapOutcome
capped job deps parsed (err e) = err e
capped job deps parsed (ok (d, applied)) =
    ok (check_caps job deps d applied (path_filter_exclusions parsed (d, applied)))

unfoldable pub cap_pipeline : ReviewJob → ReviewDeps → Result GlobError CapOutcome
unfolding check_caps path_filter_exclusions
cap_pipeline job deps =
    let parsed = parse_diff_by_file job.diff_text in
    capped job deps parsed (apply_path_filters parsed job.path_filters)
