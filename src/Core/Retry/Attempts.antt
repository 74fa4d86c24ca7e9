-- ===== src/Core/Retry/Attempts.antt =====
-- How many attempts are made, what each of them was, and what the call ends with.
use review_agent.Common.{
  ℕ, zero, suc, ◌+◌, ◌-◌, ◌≤◌, ◌≡◌, ◌⊎◌, inl, inr, refl, max, Option, or_default, List, [], ◌∷◌,
  Result, Result-cases, ok, err, arith, length,
}
use mathlib.Core.Path.{subst}
use review_agent.Core.Retry.{RetryDecision, give_up, retry_after, Run, rounds, with_retry}

Decision-cases {ℓ} :
    {E : Type ℓ} (d : RetryDecision E)
    → ((t : Option E) × (d ≡ give_up t)) ⊎ ((ms : ℕ) × (d ≡ retry_after ms))
Decision-cases (give_up t) = inl (t, refl)
Decision-cases (retry_after ms) = inr (ms, refl)

module _ {ℓ} {E A : Type ℓ} (fn : ℕ → Result E A) (classify : E → ℕ → RetryDecision E) where
  -- the attempt failed, and the classifier asked for another after `delay`
  pub record Retried (attempt delay : ℕ) : Type ℓ where
    pub error : E
    pub failed : fn attempt ≡ err error
    pub again : classify error attempt ≡ retry_after delay

  -- what the last attempt may be: a success, a failure that the classifier gives up on, or, at the
  -- cap, one that it would retry
  pub data Ends (attempt : ℕ) (at_cap : Type 0) (r : Result E A) : Type ℓ where
    returned : (a : A) → fn attempt ≡ ok a → r ≡ ok a → Ends attempt at_cap r
    gave_up :
        (e : E) (throw_as : Option E)
        → fn attempt ≡ err e
        → classify e attempt ≡ give_up throw_as
        → r ≡ err (or_default throw_as e)
        → Ends attempt at_cap r
    capped :
        (e : E) (delay : ℕ)
        → fn attempt ≡ err e
        → classify e attempt ≡ retry_after delay
        → r ≡ err e
        → at_cap
        → Ends attempt at_cap r

  -- one retried attempt for each sleep, with its delay
  abbrev pub AllRetried : ℕ → List ℕ → Type ℓ
  AllRetried attempt [] = Unit
  AllRetried attempt (d ∷ ds) = Retried attempt d × AllRetried (attempt + 1) ds

  pub record RunsFrom (left attempt : ℕ) (r : Run E A) : Type ℓ where
    pub retried : AllRetried attempt r.sleeps
    pub calls : r.calls ≡ length r.sleeps + 1
    pub bound : length r.sleeps ≤ left
    pub ends : Ends (attempt + length r.sleeps) (length r.sleeps ≡ left) r.outcome

  ended-RunsFrom :
      (left attempt : ℕ) (o : Result E A)
      → Ends attempt (0 ≡ left) o
      → RunsFrom left attempt (record { outcome = o; calls = 1; sleeps = [] })
  ended-RunsFrom left attempt o h = record {
    retried = tt;
    calls = omega arith;
    bound = omega arith;
    ends = subst (λ n. Ends n (0 ≡ left) o) (omega arith) h;
  }

  Ends-suc :
      (attempt n left : ℕ) (o : Result E A)
      → Ends (attempt + 1 + n) (n ≡ left) o
      → Ends (attempt + suc n) (suc n ≡ suc left) o
  Ends-suc attempt n left o (returned a f r) =
      returned a (subst (λ k. fn k ≡ ok a) (omega arith) f) r
  Ends-suc attempt n left o (gave_up e t f c r) =
      gave_up e t (subst (λ k. fn k ≡ err e) (omega arith) f)
        (subst (λ k. classify e k ≡ give_up t) (omega arith) c) r
  Ends-suc attempt n left o (capped e d f c r h) =
      capped e d (subst (λ k. fn k ≡ err e) (omega arith) f)
        (subst (λ k. classify e k ≡ retry_after d) (omega arith) c) r (omega arith)

  slept-RunsFrom :
      (left attempt delay : ℕ) (r : Run E A)
      → Retried attempt delay
      → RunsFrom left (attempt + 1) r
      → RunsFrom
          (suc left)
          attempt
          (record { outcome = r.outcome; calls = suc r.calls; sleeps = delay ∷ r.sleeps })
  slept-RunsFrom left attempt delay r t h = record {
    retried = (t, h.retried);
    calls = omega (arith, h.calls);
    bound = omega (arith, h.bound);
    ends = Ends-suc attempt (length r.sleeps) left r.outcome h.ends;
  }

  rounds-RunsFrom : (left attempt : ℕ) → RunsFrom left attempt (rounds fn classify left attempt)
  unfolding rounds
  rounds-RunsFrom zero attempt = elim (Result-cases (fn attempt)) [
    | inl (a, f) ↦ rw (f, rounds) (ended-RunsFrom zero attempt (ok a) (returned a f refl))
    | inr (e, f) ↦ elim (Decision-cases (classify e attempt)) [
      | inl (t, c) ↦
          rw (f, c, rounds)
            (ended-RunsFrom zero attempt (err (or_default t e)) (gave_up e t f c refl))
      | inr (d, c) ↦
          rw (f, c, rounds) (ended-RunsFrom zero attempt (err e) (capped e d f c refl refl))
    ]
  ]
  rounds-RunsFrom (suc left) attempt = elim (Result-cases (fn attempt)) [
    | inl (a, f) ↦ rw (f, rounds) (ended-RunsFrom (suc left) attempt (ok a) (returned a f refl))
    | inr (e, f) ↦ elim (Decision-cases (classify e attempt)) [
      | inl (t, c) ↦
          rw (f, c, rounds)
            (ended-RunsFrom (suc left) attempt (err (or_default t e)) (gave_up e t f c refl))
      | inr (d, c) ↦
          rw (f, c, rounds)
            (slept-RunsFrom left attempt d (rounds fn classify left (attempt + 1))
              (record { error = e; failed = f; again = c }) (rounds-RunsFrom left (attempt + 1)))
    ]
  ]

  -- Whatever the function and the classifier do, with a cap of `n` (10 if none is given, and at
  -- least 1): every attempt but the last failed and was to be retried, after the delay that was
  -- slept; there is one attempt more than sleeps, and at most as many as the cap; and the last one
  -- decides the outcome: its value, or its error (or the classifier's substitute) where the
  -- classifier gives up, or its error where it would retry and the cap is reached.
  pub with_retry-RunsFrom :
      (max_attempts : Option ℕ)
      → RunsFrom (max 1 (or_default max_attempts 10) - 1) 0 (with_retry fn classify max_attempts)
  unfolding with_retry
  with_retry-RunsFrom max_attempts = rounds-RunsFrom (max 1 (or_default max_attempts 10) - 1) 0
