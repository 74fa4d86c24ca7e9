-- ===== src/Runner/StateBuilder.antt =====
-- packages/runner/src/state-builder.ts: the state that a review leaves for the next one. The clock
-- is an argument.
pub mod Rounds
mod Tests
use review_agent.Common.{
  ℕ, ◌+◌, Option, none, some, List, [], ◌∷◌, ◌++◌, map, Text, has, if◌then◌else◌,
}
use review_agent.Core.Review.{InlineComment, ReviewState}
use review_agent.Runner.Dedup.{previous_fingerprints}

pub record BuildStateInput : Type 0 where
  pub previous_state : Option ReviewState
  pub comments : List InlineComment
  pub head_sha : Text
  pub base_sha : Text
  pub model_used : Text
  pub tokens_used : ℕ
  pub cost : ℕ

-- the elements of a set to which the texts are added
unfoldable pub set_with : List Text → List Text → List Text
set_with seen [] = seen
set_with seen (t ∷ ts) = set_with (if has seen t then seen else seen ++ (t ∷ [])) ts

abbrev previous_tokens : Option ReviewState → ℕ
previous_tokens none = 0
previous_tokens (some s) = s.total_tokens

abbrev previous_cost : Option ReviewState → ℕ
previous_cost none = 0
previous_cost (some s) = s.total_cost

unfoldable pub build_review_state : BuildStateInput → (now : ℕ) → ReviewState
unfolding set_with
build_review_state input now = record {
  last_reviewed_sha = input.head_sha;
  base_sha = input.base_sha;
  reviewed_at = now;
  model_used = input.model_used;
  total_tokens = previous_tokens input.previous_state + input.tokens_used;
  total_cost = previous_cost input.previous_state + input.cost;
  comment_fingerprints =
      set_with []
        (previous_fingerprints input.previous_state ++ map (λ c. c.fingerprint) input.comments);
}
