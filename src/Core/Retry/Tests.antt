-- ===== src/Core/Retry/Tests.antt =====
-- A function that fails twice.
use review_agent.Common.{ℕ, zero, suc, ◌+◌, ◌≡◌, refl, some, none, [], ◌∷◌, Result, ok, err}
use review_agent.Core.Retry.{RetryDecision, retry_after, with_retry}
use review_agent.Core.Retry.Attempts.{RunsFrom, with_retry-RunsFrom}

abbrev flaky : ℕ → Result ℕ ℕ
flaky zero = err 7
flaky (suc zero) = err 8
flaky (suc (suc n)) = ok (n + 2)

abbrev always : ℕ → ℕ → RetryDecision ℕ
always e attempt = retry_after (e + attempt)

third_succeeds :
    with_retry flaky always none ≡ record { outcome = ok 2; calls = 3; sleeps = 7 ∷ 9 ∷ [] }
unfolding with_retry
third_succeeds = refl

cap_of_two :
    with_retry flaky always (some 2) ≡ record { outcome = err 8; calls = 2; sleeps = 7 ∷ [] }
unfolding with_retry
cap_of_two = refl

with_retry-RunsFrom_example : RunsFrom flaky always 1 0 (with_retry flaky always (some 2))
with_retry-RunsFrom_example = with_retry-RunsFrom flaky always (some 2)
