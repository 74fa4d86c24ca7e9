-- ===== src/Core/Incremental/Tests.antt =====
-- A linear history, with a git that answers on the second attempt.
use review_agent.Common.{
  ◌≡◌, ◌↔◌, refl, true, false, some, [], ◌∷◌, Text, text, text_eq, Result, ok, err, Bool,
}
use review_agent.Core.Review.{ReviewState}
use review_agent.Core.Incremental.{
  since, Call, previous_bases, reachability, GitDeps, compute_diff_strategy,
}
use review_agent.Core.Incremental.Since.{Continues, compute_diff_strategy-Continues}

abbrev answer : Call → Bool → Text → Text → Result Text Text
answer previous_bases false a b = err (text "timed out")
answer reachability second a b = ok a
answer call second a b = ok (text "base")

abbrev deps : GitDeps
deps = record { auth_patterns = []; transient_patterns = (λ t. true) ∷ []; run_git = answer }

abbrev state : ReviewState
state = record {
  last_reviewed_sha = text "one";
  base_sha = text "main";
  reviewed_at = 0;
  model_used = text "m";
  total_tokens = 0;
  total_cost = 0;
  comment_fingerprints = [];
}

retried :
    compute_diff_strategy deps (some state) (text "main") (text "two") ≡ (since (text "one"), [])
unfolding compute_diff_strategy text_eq
retried = refl

compute_diff_strategy-Continues_example :
    ((compute_diff_strategy deps (some state) (text "main") (text "two")).0 ≡ since (text "one"))
    ↔ Continues deps state (text "main") (text "two") (text "one")
compute_diff_strategy-Continues_example =
    compute_diff_strategy-Continues deps state (text "main") (text "two") (text "one")
