-- ===== src/Core/Incremental.antt =====
-- packages/core/src/incremental.ts: `computeDiffStrategy`. The tests of the two lists of regular
-- expressions and the answers of git are parameters: an answer may differ from call to call and
-- from the first attempt to the second. The first two calls run at the same time, and the reports
-- of their failures are listed in the order of the source.
pub mod Since
mod Tests
use review_agent.Common.{
  ℕ, Bool, true, false, Option, none, some, List, [], ◌∷◌, ◌++◌, Text, text_eq, any, if◌then◌else◌,
  Result, ok, err,
}
use review_agent.Core.Review.{ReviewState}

pub data IncrementalGitFailureReason : Type 0 where
  auth transient permanent : IncrementalGitFailureReason

pub record IncrementalGitFailure : Type 0 where
  pub reason : IncrementalGitFailureReason
  pub args : Text × Text
  pub message : Text
  pub retried : Bool

pub data DiffStrategy : Type 0 where
  full : DiffStrategy
  since : Text → DiffStrategy

pub data Call : Type 0 where
  previous_bases current_bases reachability : Call

pub record GitDeps : Type 0 where
  pub auth_patterns : List (Text → Bool)
  pub transient_patterns : List (Text → Bool)
  -- the answer of `git merge-base a b`, or the message of its error
  pub run_git : Call → (second : Bool) → (a b : Text) → Result Text Text

module _ (deps : GitDeps) where
  unfoldable pub classify_git_error : Text → IncrementalGitFailureReason
  classify_git_error message =
      if any (λ p. p message) deps.auth_patterns
      then auth
      else if any (λ p. p message) deps.transient_patterns
      then transient
      else permanent

  abbrev failure : Text → Text → Text → Bool → IncrementalGitFailure
  failure a b message retried = record {
    reason = classify_git_error message;
    args = (a, b);
    message = message;
    retried = retried;
  }

  abbrev retry : Text → Text → Result Text Text → Option Text × List IncrementalGitFailure
  retry a b (ok base) = (some base, [])
  retry a b (err message) = (none, failure a b message true ∷ [])

  abbrev attempt : Call → Text → Text → Result Text Text → Option Text × List IncrementalGitFailure
  attempt call a b (ok base) = (some base, [])
  attempt call a b (err message) = elim (classify_git_error message) [
    | transient ↦ retry a b (deps.run_git call true a b)
    | _ ↦ (none, failure a b message false ∷ [])
  ]

  unfoldable pub merge_base : Call → Text → Text → Option Text × List IncrementalGitFailure
  unfolding classify_git_error
  merge_base call a b = attempt call a b (deps.run_git call false a b)

  abbrev pub reach : Text → Option Text → DiffStrategy
  reach previous_head none = full
  reach previous_head (some base) = if text_eq base previous_head then since previous_head else full

  -- after the two merge bases; an absent or an empty one is falsy
  abbrev pub compare :
      (previous_head head_sha : Text)
      → Option Text
      → Option Text
      → DiffStrategy × List IncrementalGitFailure
  compare previous_head head_sha (some (p ∷ prev)) (some (c ∷ curr)) =
      if text_eq (p ∷ prev) (c ∷ curr)
      then (
        reach previous_head (merge_base reachability previous_head head_sha).0,
        (merge_base reachability previous_head head_sha).1,
      )
      else (full, [])
  compare previous_head head_sha _ _ = (full, [])

  -- with the two hashes of the previous state
  abbrev pub from_state :
      (previous_head previous_base base_sha head_sha : Text)
      → DiffStrategy × List IncrementalGitFailure
  from_state (h ∷ previous_head) (b ∷ previous_base) base_sha head_sha =
      let prev = merge_base previous_bases (b ∷ previous_base) (h ∷ previous_head) in
      let curr = merge_base current_bases base_sha head_sha in
      let rest = compare (h ∷ previous_head) head_sha prev.0 curr.0 in
      (rest.0, prev.1 ++ (curr.1 ++ rest.1))
  from_state _ _ base_sha head_sha = (full, [])

  -- the strategy, and the failures that are reported on the way
  unfoldable pub compute_diff_strategy :
      Option ReviewState → (base_sha head_sha : Text) → DiffStrategy × List IncrementalGitFailure
  unfolding merge_base
  compute_diff_strategy none base_sha head_sha = (full, [])
  compute_diff_strategy (some state) base_sha head_sha =
      from_state state.last_reviewed_sha state.base_sha base_sha head_sha
