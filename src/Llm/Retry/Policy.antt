-- ===== src/Llm/Retry/Policy.antt =====
-- What the retry policy of the model calls comes to.
use review_agent.Common.{
  ℕ, ◌+◌, ◌*◌, ◌≤◌, ◌<◌, ◌≡◌, ◌≢◌, inl, inr, refl, true, false, Bool-cases, Option, none, some,
  or_default, List, [], ◌∷◌, length, Result, ok, err, leb, arith,
}
use mathlib.Core.Path.{subst}
use native.Mathlib.Nat.{zero-add}
use review_agent.Core.Retry.{RetryDecision, give_up, retry_after, Run}
use review_agent.Core.Retry.Attempts.{
  Ends, returned, gave_up, capped, AllRetried, with_retry-RunsFrom,
}
use review_agent.Llm.Retry.{
  ErrorKind, rate_limit, overloaded, context_length, auth, transient, fatal, ClassifiedError,
  retry_limit, base_ms, jittered, timed, decide, classify, with_retry, max_attempts,
}

module _ {ℓ} {E : Type ℓ} (classify_error : E → ClassifiedError) (context_length_error : E → E)
    (random : ℕ → ℕ) where
  -- A retry within the policy: the kind of the error has a limit above the number of the attempt,
  -- and the delay is within a fifth of the base.
  pub record IsTimed (e : E) (attempt delay : ℕ) : Type 0 where
    pub limit : ℕ
    pub limited : retry_limit (classify_error e).kind ≡ some limit
    pub below : attempt < limit
    pub few : limit ≤ 5
    pub at_least : 4000 * base_ms (classify_error e).retry_after_ms attempt ≤ delay
    pub at_most : delay ≤ 6000 * base_ms (classify_error e).retry_after_ms attempt

  abbrev timed_by : Option ℕ → Option ℕ → ℕ → RetryDecision E
  timed_by = timed classify_error context_length_error random

  stops :
      (n : ℕ) (after : Option ℕ) (attempt : ℕ) {delay : ℕ}
      → leb n attempt ≡ true
      → timed_by (some n) after attempt ≢ retry_after delay
  stops n after attempt e h = ground arith

  delays :
      (n : ℕ) (after : Option ℕ) (attempt : ℕ) {delay : ℕ}
      → leb n attempt ≡ false
      → timed_by (some n) after attempt ≡ retry_after delay
      → jittered (base_ms after attempt) (random attempt) ≡ delay
  delays n after attempt e h = ground arith

  timed-retry_after :
      (limit : Option ℕ) (after : Option ℕ) (attempt : ℕ) {delay : ℕ}
      → timed_by limit after attempt ≡ retry_after delay
      → (n : ℕ) × (limit ≡ some n)
        × (attempt < n)
        × (jittered (base_ms after attempt) (random attempt) ≡ delay)
  timed-retry_after none after attempt h = cc
  timed-retry_after (some n) after attempt h = elim (Bool-cases (leb n attempt)) [
    | inl e ↦ absurd (stops n after attempt e h)
    | inr e ↦ (n, refl, ground arith, delays n after attempt e h)
  ]

  decide-timed :
      (kind : ErrorKind) (after : Option ℕ) (e : E) (attempt : ℕ) {delay : ℕ}
      → decide classify_error context_length_error random kind after e attempt ≡ retry_after delay
      → timed_by (retry_limit kind) after attempt ≡ retry_after delay
  decide-timed context_length after e attempt h = cc
  decide-timed rate_limit after e attempt h = h
  decide-timed overloaded after e attempt h = h
  decide-timed auth after e attempt h = h
  decide-timed transient after e attempt h = h
  decide-timed fatal after e attempt h = h

  few : (kind : ErrorKind) {n : ℕ} → retry_limit kind ≡ some n → n ≤ 5
  few rate_limit h = ground arith
  few overloaded h = ground arith
  few transient h = ground arith
  few context_length h = cc
  few auth h = cc
  few fatal h = cc

  jittered_bounds :
      (base r : ℕ) → r < 1000 → (4000 * base ≤ jittered base r) × (jittered base r ≤ 6000 * base)
  jittered_bounds base r h = grind arith

  classify-IsTimed :
      ((n : ℕ) → random n < 1000)
      → (e : E) (attempt delay : ℕ)
      → classify classify_error context_length_error random e attempt ≡ retry_after delay
      → IsTimed e attempt delay
  unfolding classify
  classify-IsTimed r e attempt delay h =
      let kind = (classify_error e).kind in
      let after = (classify_error e).retry_after_ms in
      let (n, p, q, d) =
        timed-retry_after (retry_limit kind) after attempt (decide-timed kind after e attempt h) in
      let (low, high) = jittered_bounds (base_ms after attempt) (random attempt) (r attempt) in
      record {
        limit = n;
        limited = p;
        below = q;
        few = few kind p;
        at_least = subst (λ x. 4000 * base_ms after attempt ≤ x) d low;
        at_most = subst (λ x. x ≤ 6000 * base_ms after attempt) d high;
      }

  -- each sleep follows a failure that the policy tries again, after a delay that it allows
  abbrev pub AllTimed : {A : Type ℓ} → (ℕ → Result E A) → ℕ → List ℕ → Type ℓ
  AllTimed fn attempt [] = Unit
  AllTimed fn attempt (d ∷ ds) =
      ((e : E) × (fn attempt ≡ err e) × IsTimed e attempt d) × AllTimed fn (attempt + 1) ds

  AllRetried-AllTimed :
      {A : Type ℓ}
      → ((n : ℕ) → random n < 1000)
      → (fn : ℕ → Result E A) (attempt : ℕ) (ds : List ℕ)
      → AllRetried fn (classify classify_error context_length_error random) attempt ds
      → AllTimed fn attempt ds
  AllRetried-AllTimed r fn attempt [] h = tt
  AllRetried-AllTimed r fn attempt (d ∷ ds) (h, hs) = (
    (h.error, h.failed, classify-IsTimed r h.error attempt d h.again),
    AllRetried-AllTimed r fn (attempt + 1) ds hs,
  )

  AllTimed-length :
      {A : Type ℓ} (fn : ℕ → Result E A) (attempt : ℕ) (ds : List ℕ)
      → attempt ≤ 5
      → AllTimed fn attempt ds
      → attempt + length ds ≤ 5
  AllTimed-length fn attempt [] b h = omega arith
  AllTimed-length fn attempt (d ∷ ds) b ((e, f, t), hs) =
      omega (arith, AllTimed-length fn (attempt + 1) ds (omega (arith, t.below, t.few)) hs)

  -- how the last attempt ended: with a value, or with an error that the policy gives up on
  pub data GivesUp {A : Type ℓ} (fn : ℕ → Result E A) (attempt : ℕ) (r : Result E A) : Type ℓ where
    returns : (a : A) → fn attempt ≡ ok a → r ≡ ok a → GivesUp fn attempt r
    gives_up :
        (e : E) (throw_as : Option E)
        → fn attempt ≡ err e
        → classify classify_error context_length_error random e attempt ≡ give_up throw_as
        → r ≡ err (or_default throw_as e)
        → GivesUp fn attempt r

  Ends-GivesUp :
      {A : Type ℓ}
      → ((n : ℕ) → random n < 1000)
      → (fn : ℕ → Result E A) (n : ℕ) (r : Result E A) → n ≤ 5
      → Ends fn (classify classify_error context_length_error random) n (n ≡ 5) r
      → GivesUp fn n r
  Ends-GivesUp q fn n r b (returned a f g) = returns a f g
  Ends-GivesUp q fn n r b (gave_up e t f c g) = gives_up e t f c g
  Ends-GivesUp q fn n r b (capped e d f c g at) =
      let t = classify-IsTimed q e n d c in absurd (omega (arith, t.below, t.few))

  pub record IsWithinPolicy {A : Type ℓ} (fn : ℕ → Result E A) (r : Run E A) : Type ℓ where
    pub timed : AllTimed fn 0 r.sleeps
    pub calls : r.calls ≡ length r.sleeps + 1
    pub bound : r.calls ≤ max_attempts
    pub ends : GivesUp fn (length r.sleeps) r.outcome

  -- Whatever the call and the classification do: every attempt but the last failed with a kind that is
  -- tried again, the number of the attempt was below the limit of its kind, and the sleep after it was
  -- within a fifth of the wait that the provider asked for or of the schedule; the last one returned,
  -- or failed with an error that the policy gives up on; there are six calls at most, and the cap of
  -- six is never what ends the loop.
  pub with_retry-IsWithinPolicy :
      {A : Type ℓ}
      → ((n : ℕ) → random n < 1000)
      → (fn : ℕ → Result E A)
      → IsWithinPolicy fn (with_retry classify_error context_length_error random fn)
  unfolding with_retry
  with_retry-IsWithinPolicy q fn =
      let h =
        with_retry-RunsFrom fn (classify classify_error context_length_error random)
          (some max_attempts) in
      let r = with_retry classify_error context_length_error random fn in
      let last =
        subst
          (λ n.
            Ends fn (classify classify_error context_length_error random) n (length r.sleeps ≡ 5)
              r.outcome)
          (zero-add (length r.sleeps)) h.ends in
      let timed_all = AllRetried-AllTimed q fn 0 _ h.retried in
      record {
        timed = timed_all;
        calls = h.calls;
        bound = omega (arith, h.calls, h.bound);
        ends = Ends-GivesUp q fn (length r.sleeps) r.outcome h.bound last;
      }
