-- ===== src/Llm/Retry/Tests.antt =====
-- A provider that is rate-limited twice, and one that says when to come back.
use review_agent.Common.{
  ℕ, ◌≡◌, refl, none, some, [], ◌∷◌, Text, text, Result, ok, err, arith, ◌==◌, if◌then◌else◌,
}
use review_agent.Core.Retry as Core
use review_agent.Llm.Retry.{rate_limit, overloaded, context_length, ClassifiedError, with_retry}
use review_agent.Llm.Retry.Policy.{IsWithinPolicy, with_retry-IsWithinPolicy}

abbrev limited : Text → ClassifiedError
limited e = record { kind = rate_limit; retry_after_ms = none }

abbrev too_long : Text → Text
too_long e = text "context"

abbrev even_random : ℕ → ℕ
even_random n = 500

abbrev third : ℕ → Result Text ℕ
third n = if n == 2 then ok 7 else err (text "429")

with_retry-IsWithinPolicy_example :
    IsWithinPolicy limited too_long even_random third
      (with_retry limited too_long even_random third)
with_retry-IsWithinPolicy_example =
    with_retry-IsWithinPolicy limited too_long even_random (λ n. omega arith) third

third_time :
    with_retry limited too_long even_random third
    ≡ record { outcome = ok 7; calls = 3; sleeps = 5000000 ∷ 10000000 ∷ [] }
unfolding with_retry Core.with_retry
third_time = refl

abbrev failing : Text → ℕ → Result Text ℕ
failing e n = err e

-- three retries of an overloaded provider
overloaded_always :
    (with_retry
      (λ (e : Text). record { kind = overloaded; retry_after_ms = some 10 })
      too_long
      even_random
      (failing (text "529"))).sleeps
    ≡ 50000 ∷ 50000 ∷ 50000 ∷ []
unfolding with_retry Core.with_retry
overloaded_always = refl

replaced :
    (with_retry
      (λ (e : Text). record { kind = context_length; retry_after_ms = none })
      too_long
      even_random
      (failing (text "400"))).outcome
    ≡ err (text "context")
unfolding with_retry Core.with_retry
replaced = refl
