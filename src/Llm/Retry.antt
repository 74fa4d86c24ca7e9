-- ===== src/Llm/Retry.antt =====
-- packages/llm/src/retry.ts, on the loop of packages/core/src/retry.ts. `random n` is what the
-- generator gives at attempt `n`, in thousandths, below 1000; a delay is counted in units of a
-- five-thousandth of a millisecond, so that the jitter of 0.2 is exact. The constructor of the error
-- of a context that is too long is a parameter.
pub mod Policy
mod Tests
use review_agent.Common.{
  ℕ, ◌+◌, ◌*◌, min, Option, none, some, or_default, List, [], ◌∷◌, get_elem?, Result, leb,
  if◌then◌else◌,
}
use review_agent.Core.Retry.{RetryDecision, give_up, retry_after, Run}
use review_agent.Core.Retry as Core

pub data ErrorKind : Type 0 where
  rate_limit overloaded context_length auth transient fatal : ErrorKind

pub record ClassifiedError : Type 0 where
  pub kind : ErrorKind
  pub retry_after_ms : Option ℕ

-- the kinds that are tried again, with the number of retries
abbrev pub retry_limit : ErrorKind → Option ℕ
retry_limit rate_limit = some 5
retry_limit overloaded = some 3
retry_limit transient = some 3
retry_limit _ = none

abbrev pub backoff_ms : List ℕ
backoff_ms = 1000 ∷ 2000 ∷ 4000 ∷ 8000 ∷ 16000 ∷ []

abbrev pub max_attempts : ℕ
max_attempts = 6

abbrev pub base_ms : Option ℕ → ℕ → ℕ
base_ms after attempt = or_default after (or_default (get_elem? backoff_ms (min attempt 4)) 16000)

-- `base + base * 0.2 * (random * 2 - 1)`, which is never below 0
abbrev pub jittered : (base random : ℕ) → ℕ
jittered base random = base * (4000 + 2 * random)

module _ {ℓ} {E : Type ℓ} (classify_error : E → ClassifiedError) (context_length_error : E → E)
    (random : ℕ → ℕ) where
  abbrev pub timed : Option ℕ → Option ℕ → ℕ → RetryDecision E
  timed none after attempt = give_up none
  timed (some limit) after attempt =
      if leb limit attempt
      then give_up none
      else retry_after (jittered (base_ms after attempt) (random attempt))

  abbrev pub decide : ErrorKind → Option ℕ → E → ℕ → RetryDecision E
  decide context_length after e attempt = give_up (some (context_length_error e))
  decide kind after e attempt = timed (retry_limit kind) after attempt

  unfoldable pub classify : E → ℕ → RetryDecision E
  classify e attempt = decide (classify_error e).kind (classify_error e).retry_after_ms e attempt

  unfoldable pub with_retry : {A : Type ℓ} → (ℕ → Result E A) → Run E A
  unfolding classify
  with_retry fn = Core.with_retry fn classify (some max_attempts)
