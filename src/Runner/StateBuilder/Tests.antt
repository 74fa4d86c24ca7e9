-- ===== src/Runner/StateBuilder/Tests.antt =====
-- Two reviews of the same diff.
use review_agent.Common.{◌≡◌, refl, false, none, some, [], ◌∷◌, map, text, text_eq, has, All, ok}
use review_agent.Core.Review.{comment, InlineComment, compute_review_event}
use review_agent.Core.Cost.{decide_cost_action}
use review_agent.Runner.DiffFilter.{parse_diff_by_file, apply_path_filters, count_diff_lines}
use review_agent.Runner.CostGuard.{guarded}
use review_agent.Runner.Dedup.{previous_fingerprints, dedup_comments}
use review_agent.Runner.Dedup.Fresh.{fingerprints}
use review_agent.Runner.Gitleaks.{should_abort_review, apply_redactions}
use review_agent.Runner.Types.{RunnerResult}
use review_agent.Runner.Agent.Job.{ReviewJob}
use review_agent.Runner.Agent.Caps.{cap_pipeline}
use review_agent.Runner.Agent.Filters.{apply_ruleset_filter, suppress, meets_confidence}
use review_agent.Runner.Agent.Generate.{generate_review}
use review_agent.Runner.Agent.{
  review_admitted, refuse_secrets, finish, output_findings, posted, deduped, ruled, filtered_kept,
  run_review_inner,
}
use review_agent.Runner.Agent.Tests.{job, deps, one_comment}
use review_agent.Runner.StateBuilder.{BuildStateInput, build_review_state}
use review_agent.Runner.StateBuilder.Rounds.{later-new}

abbrev input : BuildStateInput
input = record {
  previous_state = none;
  comments = one_comment.comments;
  head_sha = text "one";
  base_sha = text "main";
  model_used = text "m";
  tokens_used = 11;
  cost = 30;
}

abbrev later : ReviewJob
later = record job { previous_state = some (build_review_state input 5) }

abbrev nothing_new : RunnerResult
nothing_new = record one_comment { comments = []; dropped_duplicates = 2; review_event = comment }

repeated : (run_review_inner later deps).0 ≡ ok nothing_new
unfolding run_review_inner cap_pipeline apply_path_filters parse_diff_by_file count_diff_lines
    review_admitted refuse_secrets should_abort_review generate_review guarded decide_cost_action
    finish output_findings posted deduped dedup_comments text_eq ruled filtered_kept
    apply_ruleset_filter suppress meets_confidence compute_review_event apply_redactions
    build_review_state
repeated = refl

-- the previous review posted something else
abbrev other : BuildStateInput
other = record input {
  comments = map (λ (c : InlineComment). record c { fingerprint = 9 ∷ [] }) one_comment.comments;
}

abbrev after_other : ReviewJob
after_other = record job { previous_state = some (build_review_state other 5) }

posted_again : (run_review_inner after_other deps).0 ≡ ok one_comment
unfolding run_review_inner cap_pipeline apply_path_filters parse_diff_by_file count_diff_lines
    review_admitted refuse_secrets should_abort_review generate_review guarded decide_cost_action
    finish output_findings posted deduped dedup_comments text_eq ruled filtered_kept
    apply_ruleset_filter suppress meets_confidence compute_review_event apply_redactions
    build_review_state
posted_again = refl

later-new_example :
    All
      (λ k.
        (has (previous_fingerprints none) k.fingerprint ≡ false)
        × (has (fingerprints other.comments) k.fingerprint ≡ false))
      one_comment.comments
later-new_example = later-new other 5 after_other deps refl posted_again refl
