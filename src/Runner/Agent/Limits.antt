-- ===== src/Runner/Agent/Limits.antt =====
-- What a review costs, and what it reports where it is aborted.
use review_agent.Common.{
  ℕ, Text, ◌≤◌, ◌<◌, ◌≡◌, ◌≢◌, refl, ap, ◌∙◌, inl, inr, none, Bool, true, false, List, Result, ok,
  err, Result-cases, arith, Bool-cases, ◌==◌,
}
use review_agent.Core.Cost.{CostGuardDecision, proceed, fallback, abort, kill}
use review_agent.Runner.Effects.{
  RunError, glob, secret_leak, schema_validation, cost_exceeded, other, Issue, RunState, Run, ◌>>=◌,
  ◌>>◌, >>=-ok, >>=-err, call, estimated,
}
use review_agent.Runner.CostGuard.{
  CostTotals, before, totals, decision, settle, guarded, cost_guard, record_exceeded,
}
use review_agent.Runner.CostGuard.Limits.{cost_guard-within_cap}
use review_agent.Runner.Types.{RunnerResult}
use review_agent.Runner.Agent.Job.{ReviewJob, ReviewDeps}
use review_agent.Runner.Agent.Caps.Reports.{IsRefused, skipped-IsRefused}
use review_agent.Runner.Agent.Generate.{
  Output, attempt, handle, validated, main, compose, guard_options, generate_review,
}
use review_agent.Runner.Agent.{abort_result, effective_diff, posted, start, run_review_inner}
use review_agent.Runner.Agent.Ends.{Ends, at_cap, given_up, reviewed, run_review_inner-Ends}

-- if a schema error came out, then the accumulated cost is `n`
abbrev Keeps : {A : Type 0} → ℕ → Result RunError A × RunState → Type 0
Keeps n (r, s) = (issues : List Issue) → r ≡ err (schema_validation issues) → s.total_cost ≡ n

Keeps->>= :
    {A B : Type 0} (n : ℕ) (m : Run A) (f : A → Run B) (s : RunState)
    → (m s).1.total_cost ≡ n
    → ((a : A) (s' : RunState) → s'.total_cost ≡ n → Keeps n (f a s'))
    → Keeps n ((m >>= f) s)
Keeps->>= n m f s h k = elim (Result-cases (m s).0) [
  | inl (a, e) ↦ rw (>>=-ok m f s a e) (k a (m s).1 h)
  | inr (x, e) ↦ rw (>>=-err m f s x e) λ issues q. h
]

before-total :
    (e : ℕ) (d : CostGuardDecision) (s : RunState)
    → (before guard_options e d s).1.total_cost ≡ s.total_cost
unfolding record_exceeded
before-total e proceed s = refl
before-total e fallback s = refl
before-total e (abort reason running cap) s = refl
before-total e (kill running cap) s = refl

validated-total :
    (deps : ReviewDeps) (diff : Text) (retry : Bool) (s : RunState)
    → (validated deps diff retry s).1.total_cost ≡ s.total_cost
unfolding validated attempt
validated-total deps diff retry s = ground arith

handle-total :
    (deps : ReviewDeps) (diff : Text) (n : ℕ) (r : Result RunError Output) (s : RunState)
    → s.total_cost ≡ n
    → (handle (validated deps diff true) (r, s)).1.total_cost ≡ n
handle-total deps diff n (ok out) s h = h
handle-total deps diff n (err (schema_validation issues)) s h = validated-total deps diff true s ∙ h
handle-total deps diff n (err (glob e)) s h = h
handle-total deps diff n (err (secret_leak p k t why)) s h = h
handle-total deps diff n (err (cost_exceeded c k)) s h = h
handle-total deps diff n (err (other t)) s h = h

main-total :
    (deps : ReviewDeps) (diff : Text) (s : RunState)
    → (main deps diff s).1.total_cost ≡ s.total_cost
unfolding main
main-total deps diff s =
    handle-total deps diff s.total_cost (validated deps diff false s).0
      (validated deps diff false s).1 (validated-total deps diff false s)

settle-Keeps :
    (cap : ℕ) (estimate : Result RunError ℕ) (t : CostTotals) (out : Output) (s : RunState) (n : ℕ)
    → Keeps n (settle guard_options cap estimate t out s)
unfolding settle record_exceeded
settle-Keeps cap estimate t out s n = λ issues q. ground arith

module _ (deps : ReviewDeps) (diff : Text) (cap n : ℕ) where
  abbrev after_totals : ℕ → CostTotals → Run Output
  after_totals e t =
      before guard_options e (decision guard_options cap e t)
      >> (main deps diff >>= settle guard_options cap deps.estimate_cost t)

  called-Keeps :
      (t : CostTotals) (s : RunState)
      → s.total_cost ≡ n
      → Keeps n ((main deps diff >>= settle guard_options cap deps.estimate_cost t) s)
  called-Keeps t s h =
      Keeps->>= n (main deps diff) (settle guard_options cap deps.estimate_cost t) s
        (main-total deps diff s ∙ h) λ out s' _. settle-Keeps cap deps.estimate_cost t out s' n

  after_totals-Keeps :
      (e : ℕ) (t : CostTotals) (s : RunState) → s.total_cost ≡ n → Keeps n (after_totals e t s)
  after_totals-Keeps e t s h =
      Keeps->>= n (before guard_options e (decision guard_options cap e t))
        (λ _. main deps diff >>= settle guard_options cap deps.estimate_cost t) s
        (before-total e (decision guard_options cap e t) s ∙ h) λ _ s' h'. called-Keeps t s' h'

  guarded-Keeps :
      (s : RunState)
      → s.total_cost ≡ n
      → Keeps n (guarded guard_options cap deps.estimate_cost (main deps diff) s)
  unfolding guarded
  guarded-Keeps s h =
      Keeps->>= n (call estimated deps.estimate_cost)
        (λ e. totals guard_options none >>= after_totals e) s h
        λ e s₁ h₁.
          Keeps->>= n (totals guard_options none) (after_totals e) s₁ h₁
            λ t s₂ h₂. after_totals-Keeps e t s₂ h₂

generate_review-Keeps :
    (job : ReviewJob) (deps : ReviewDeps) (diff : Text) (s : RunState)
    → Keeps s.total_cost (generate_review job deps diff s)
unfolding generate_review compose cost_guard
generate_review-Keeps job deps diff s = elim (Bool-cases (job.cost_cap == 0)) [
  | inl e ↦ rw e λ issues q. main-total deps diff s
  | inr e ↦ rw e (guarded-Keeps deps diff job.cost_cap s.total_cost s refl)
]

module _ (job : ReviewJob) (deps : ReviewDeps) {rejected suppressed : List Text}
    {r : RunnerResult} where
  Ends-IsRefused : Ends job deps rejected suppressed r → r.aborted ≢ none → IsRefused r
  unfolding abort_result posted
  Ends-IsRefused (at_cap c) n = skipped-IsRefused job deps c
  Ends-IsRefused (given_up a issues s c d g e) n = rw e (record {
    comments = refl;
    cost =
        rw (ap (λ p. p.1) g) at (
          generate_review-Keeps job deps (effective_diff job deps a) start issues
            (ap (λ p. p.0) g));
    event = refl;
    aborted = λ q. cc;
  })
  Ends-IsRefused (reviewed a out s c d g o e) n = absurd (n (ap (λ x. x.aborted) e))

  Ends-within_cap : Ends job deps rejected suppressed r → 0 < job.cost_cap → r.cost ≤ job.cost_cap
  unfolding abort_result posted generate_review compose
  Ends-within_cap (at_cap c) p = omega (arith, (skipped-IsRefused job deps c).cost)
  Ends-within_cap (given_up a issues s c d g e) p = omega (
    arith,
    ap (λ x. x.cost) e,
    ap (λ x. x.1.total_cost) g,
    generate_review-Keeps job deps (effective_diff job deps a) start issues (ap (λ x. x.0) g),
  )
  Ends-within_cap (reviewed a out s c d g o e) p = omega (
    arith,
    ap (λ x. x.cost) e,
    ap (λ x. x.1.total_cost) g,
    cost_guard-within_cap guard_options job.cost_cap deps.estimate_cost
        (main deps (effective_diff job deps a)) start p (ap (λ x. x.0) g),
  )

-- A review that returns aborted, for its size or because the model's output was rejected twice, has
-- no comments, the event `COMMENT` and the cost 0, although in the second case the model was called.
pub run_review_inner-IsRefused :
    (job : ReviewJob) (deps : ReviewDeps) {r : RunnerResult}
    → (run_review_inner job deps).0 ≡ ok r
    → r.aborted ≢ none
    → IsRefused r
run_review_inner-IsRefused job deps h n =
    Ends-IsRefused job deps (run_review_inner-Ends job deps h) n

-- If the job has a cost cap and the review returns, whatever the model does, the cost that it
-- reports is at most the cap.
pub run_review_inner-within_cap :
    (job : ReviewJob) (deps : ReviewDeps) {r : RunnerResult}
    → 0 < job.cost_cap
    → (run_review_inner job deps).0 ≡ ok r
    → r.cost ≤ job.cost_cap
run_review_inner-within_cap job deps p h =
    Ends-within_cap job deps (run_review_inner-Ends job deps h) p
