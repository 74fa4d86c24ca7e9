-- ===== src/Runner/CostGuard/Limits.antt =====
-- What the guard lets through, and what it stops.
use review_agent.Common.{
  ℕ, ◌+◌, ◌≤◌, ◌<◌, ◌≡◌, refl, ap, sym, ◌∙◌, Result, ◌≢◌, ok, err, arith, false, Result-cases, Bool,
  true, not, ◌&&◌, if◌then◌else◌, inl, inr, ◌==◌,
}
use review_agent.Core.Cost.{CostGuardDecision, decide_cost_action, proceed, fallback, abort, kill}
use review_agent.Core.Cost.Decisions.{strictness}
use review_agent.Runner.Effects.{
  RunError, RunState, Run, >>=-eq-ok, >>=-ok, >>=-err, call, estimated, CostThresholdEvent,
}
use review_agent.Runner.CostGuard.{
  ReviewOutput, CostTotals, CostGuardOptions, before, refuse, record_exceeded, to_threshold_event,
  settle, has_recorder, guarded, cost_guard, totals, decision,
}

not-zero : (cap : ℕ) → 0 < cap → (cap == 0) ≡ false
not-zero cap p = ground arith

refuse-err :
    (o : CostGuardOptions) {A : Type 0} (event : CostThresholdEvent) (estimate limit running : ℕ)
    (s : RunState) (a : A)
    → (refuse o event estimate limit running s).0 ≢ ok a
unfolding record_exceeded
refuse-err o event estimate limit running s a h = ground arith

before-stops :
    (o : CostGuardOptions) (d : CostGuardDecision) (estimate : ℕ) (s : RunState)
    → 2 ≤ strictness d
    → (before o estimate d s).0 ≢ ok tt
before-stops o proceed estimate s p h = absurd (omega arith)
before-stops o fallback estimate s p h = absurd (omega arith)
before-stops o (abort reason running limit) estimate s p h =
    refuse-err o (to_threshold_event (abort reason running limit)) estimate limit running s tt h
before-stops o (kill running limit) estimate s p h =
    refuse-err o (to_threshold_event (kill running limit)) estimate limit running s tt h

-- a decision that stops has a cap behind it, so that the guard is there
decided-capped :
    (o : CostGuardOptions) (cap e : ℕ) (t : CostTotals)
    → 2 ≤ strictness (decision o cap e t)
    → (cap == 0 && (o.daily_cap == 0)) ≡ false
unfolding decide_cost_action
decided-capped o cap e t d = ground arith

guard-there :
    {A : Type 0} (b c n : Bool) (x y : A) → (b && c) ≡ false → (if b && (c && n) then x else y) ≡ y
guard-there true true n x y h = cc
guard-there true false n x y h = refl
guard-there false c n x y h = refl

module _ {C : Type 0} (o : CostGuardOptions) (cap : ℕ) (estimate_cost : Result RunError ℕ) where
  settle_lem :
      (t : CostTotals) (result : ReviewOutput C) (s : RunState) {r : ReviewOutput C}
      → (settle o cap estimate_cost t result s).0 ≡ ok r
      → (r ≡ result)
        × ((settle o cap estimate_cost t result s).1.total_cost ≡ t.running + result.cost)
        × (0 < cap → t.running + result.cost ≤ cap)
  unfolding settle
  settle_lem t result s h = (ground arith, ground arith, λ p. ground arith)

  -- a guarded call that returns ends with `settle`
  guarded-settle :
      (next : Run (ReviewOutput C)) (s : RunState) {r : ReviewOutput C}
      → (guarded o cap estimate_cost next s).0 ≡ ok r
      → (t : CostTotals) × (result : ReviewOutput C) × (s' : RunState) × (guarded o cap
            estimate_cost next s
          ≡ settle o cap estimate_cost t result s')
  unfolding guarded
  guarded-settle next s h =
      let (e, _, q₁) = >>=-eq-ok (call estimated estimate_cost) _ s h in
      let s₁ : RunState = (call estimated estimate_cost s).1 in
      let h₁ = sym (ap (λ p. p.0) q₁) ∙ h in
      let (t, _, q₂) = >>=-eq-ok (totals o o.read_totals) _ s₁ h₁ in
      let s₂ : RunState = (totals o o.read_totals s₁).1 in
      let h₂ = sym (ap (λ p. p.0) q₂) ∙ h₁ in
      let (_, _, q₃) = >>=-eq-ok (before o e (decision o cap e t)) _ s₂ h₂ in
      let s₃ : RunState = (before o e (decision o cap e t) s₂).1 in
      let h₃ = sym (ap (λ p. p.0) q₃) ∙ h₂ in
      let (result, _, q₄) = >>=-eq-ok next (settle o cap estimate_cost t) s₃ h₃ in
      (t, result, (next s₃).1, q₁ ∙ q₂ ∙ q₃ ∙ q₄)

  cost_guard-guarded :
      (next : Run (ReviewOutput C))
      → 0 < cap
      → cost_guard o cap estimate_cost next ≡ guarded o cap estimate_cost next
  unfolding cost_guard
  cost_guard-guarded next p = rw (not-zero cap p)

  -- If a cap is set and the guarded call returns a result, whatever the model, the ledger and the
  -- totals did, then the accumulated cost has been set to at most the cap.
  pub cost_guard-within_cap :
      (next : Run (ReviewOutput C)) (s : RunState) {r : ReviewOutput C}
      → 0 < cap
      → (cost_guard o cap estimate_cost next s).0 ≡ ok r
      → (cost_guard o cap estimate_cost next s).1.total_cost ≤ cap
  cost_guard-within_cap next s {r} p =
      rw (cost_guard-guarded next p) λ (h : (guarded o cap estimate_cost next s).0 ≡ ok r).
        let (t, result, s', q) = guarded-settle next s h in
        let (_, spent, within) = settle_lem t result s' (rw q at h) in rw (q, spent) (within p)

  -- what the guard ends with if its decision stops the review
  guarded-stops :
      (e : ℕ) (t : CostTotals) (s : RunState)
      → estimate_cost ≡ ok e
      → (totals o o.read_totals (call estimated estimate_cost s).1).0 ≡ ok t
      → 2 ≤ strictness (decision o cap e t)
      → (x : RunError) × (s' : RunState) × ((next : Run (ReviewOutput C))
          → guarded o cap estimate_cost next s ≡ (err x, s'))
  unfolding guarded
  guarded-stops e t s p q d =
      let s₂ : RunState = (totals o o.read_totals (call estimated estimate_cost s).1).1 in
      elim (Result-cases (before o e (decision o cap e t) s₂).0) [
        | inl (u, b) ↦ absurd (before-stops o (decision o cap e t) e s₂ d b)
        | inr (x, b) ↦ (
          x,
          (before o e (decision o cap e t) s₂).1,
          λ next.
              >>=-ok (call estimated estimate_cost) _ s e p
              ∙ >>=-ok (totals o o.read_totals) _ (call estimated estimate_cost s).1 t q
              ∙ >>=-err (before o e (decision o cap e t)) _ s₂ x b,
        )
      ]

  decided-guarded :
      (e : ℕ) (t : CostTotals)
      → 2 ≤ strictness (decision o cap e t)
      → (next : Run (ReviewOutput C))
      → cost_guard o cap estimate_cost next ≡ guarded o cap estimate_cost next
  unfolding cost_guard
  decided-guarded e t d next =
      guard-there (cap == 0) (o.daily_cap == 0) (not (has_recorder o.recorder)) next
        (guarded o cap estimate_cost next) (decided-capped o cap e t d)

  -- If the decision for the estimate and the totals is to abort or to kill, for the cap of the pull
  -- request or for that of the day, then the guarded call throws, and its error and its effects are
  -- the same whatever the call would have done: the model is not called.
  pub cost_guard-stops :
      (e : ℕ) (t : CostTotals) (s : RunState)
      → estimate_cost ≡ ok e
      → (totals o o.read_totals (call estimated estimate_cost s).1).0 ≡ ok t
      → 2 ≤ strictness (decision o cap e t)
      → (x : RunError) × (s' : RunState) × ((next : Run (ReviewOutput C))
          → cost_guard o cap estimate_cost next s ≡ (err x, s'))
  cost_guard-stops e t s p q d =
      let (x, s', h) = guarded-stops e t s p q d in
      (x, s', λ next. rw (decided-guarded e t d next) (h next))
