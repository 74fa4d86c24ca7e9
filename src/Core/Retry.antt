-- ===== src/Core/Retry.antt =====
-- packages/core/src/retry.ts. `fn` is a function of the number of the attempt, so that it may answer
-- differently each time; the sleeps are listed in the result.
pub mod Attempts
mod Tests
use review_agent.Common.{
  ℕ, zero, suc, ◌+◌, ◌-◌, max, Option, or_default, List, [], ◌∷◌, Result, ok, err,
}

pub data RetryDecision {ℓ} (E : Type ℓ) : Type ℓ where
  give_up : Option E → RetryDecision E
  retry_after : ℕ → RetryDecision E

pub record Run {ℓ} (E A : Type ℓ) : Type ℓ where
  pub outcome : Result E A
  pub calls : ℕ
  pub sleeps : List ℕ

module _ {ℓ} {E A : Type ℓ} (fn : ℕ → Result E A) (classify : E → ℕ → RetryDecision E) where
  abbrev ended : Result E A → Run E A
  ended r = record { outcome = r; calls = 1; sleeps = [] }

  abbrev slept : ℕ → Run E A → Run E A
  slept delay r = record { outcome = r.outcome; calls = suc r.calls; sleeps = delay ∷ r.sleeps }

  -- The rounds of the loop from this attempt on; `left` is `max - 1 - attempt`, and the test
  -- `attempt + 1 >= max` is that it is 0.
  unfoldable pub rounds : (left attempt : ℕ) → Run E A
  rounds zero attempt = elim (fn attempt) [
    | ok a ↦ ended (ok a)
    | err e ↦ elim (classify e attempt) [
      | give_up throw_as ↦ ended (err (or_default throw_as e))
      | retry_after delay ↦ ended (err e)
    ]
  ]
  rounds (suc left) attempt = elim (fn attempt) [
    | ok a ↦ ended (ok a)
    | err e ↦ elim (classify e attempt) [
      | give_up throw_as ↦ ended (err (or_default throw_as e))
      | retry_after delay ↦ slept delay (rounds left (attempt + 1))
    ]
  ]

  -- `maxAttempts ?? 10`, and at least 1
  unfoldable pub with_retry : Option ℕ → Run E A
  unfolding rounds
  with_retry max_attempts = rounds (max 1 (or_default max_attempts 10) - 1) 0
