-- ===== src/Runner/Agent/Calls.antt =====
-- How often a review calls the model.
use review_agent.Common.{
  ℕ, ◌+◌, ◌≤◌, ◌≡◌, Bool, true, false, List, [], ◌∷◌, ◌++◌, Text, Option, none, some, Result, ok,
  err, Result-cases, inl, inr, arith, Bool-cases, ◌==◌,
}
use review_agent.Core.Glob.{GlobError, Node}
use review_agent.Core.Cost.{CostGuardDecision, proceed, fallback, abort, kill}
use review_agent.Runner.DiffFilter.{compile_filters}
use review_agent.Runner.Effects.{
  RunError, LeakPhase, glob, secret_leak, schema_validation, cost_exceeded, other, Effect,
  generated, RunState, Run, ◌>>=◌, ◌>>◌, >>=-ok, >>=-err, call, estimated,
}
use review_agent.Runner.CostGuard.{
  CostTotals, before, totals, decision, settle, guarded, cost_guard, record_exceeded,
}
use review_agent.Runner.Gitleaks.{GitleaksFinding}
use review_agent.Runner.Types.{RunnerResult, FactRow}
use review_agent.Runner.Agent.Job.{ReviewJob, ReviewDeps}
use review_agent.Runner.Agent.Caps.{Admitted, CapOutcome, skipped, admitted, cap_pipeline}
use review_agent.Runner.Agent.Generate.{
  Output, attempt, handle, validated, main, compose, guard_options, generate_review,
}
use review_agent.Runner.Agent.{
  rows_of, refuse_secrets, compiled, finish, posted, filtered_kept, output_findings, answered,
  review_admitted, review_capped, start, effective_diff, rejected_fingerprints,
  suppressed_fingerprints, run_review_inner,
}

abbrev generation : Effect → ℕ
generation (generated diff retry) = 1
generation _ = 0

abbrev pub generations : List Effect → ℕ
generations [] = 0
generations (e ∷ es) = generation e + generations es

generations-append :
    (es fs : List Effect) → generations (es ++ fs) ≡ generations es + generations fs
generations-append [] fs = omega arith
generations-append (e ∷ es) fs = omega (arith, generations-append es fs)

-- a run from `s` that calls the model at most `k` times
abbrev Calls : {A : Type 0} → ℕ → RunState → Result RunError A × RunState → Type 0
Calls k s p = generations p.1.log ≤ generations s.log + k

Calls->>= :
    {A B : Type 0} (j k : ℕ) (m : Run A) (f : A → Run B) (s : RunState)
    → Calls j s (m s)
    → ((a : A) (s' : RunState) → Calls k s' (f a s'))
    → Calls (j + k) s ((m >>= f) s)
Calls->>= j k m f s h g = elim (Result-cases (m s).0) [
  | inl (a, e) ↦ rw (>>=-ok m f s a e) (omega (arith, h, g a (m s).1))
  | inr (x, e) ↦ rw (>>=-err m f s x e) (omega (arith, h))
]

validated-Calls :
    (deps : ReviewDeps) (diff : Text) (retry : Bool) (s : RunState)
    → Calls 1 s (validated deps diff retry s)
unfolding validated attempt
validated-Calls deps diff retry s =
    ground (arith, generations-append s.log (generated diff retry ∷ []))

handle-Calls :
    (deps : ReviewDeps) (diff : Text) (s : RunState) (r : Result RunError Output) (s' : RunState)
    → generations s'.log ≤ generations s.log + 1
    → Calls 2 s (handle (validated deps diff true) (r, s'))
handle-Calls deps diff s (ok out) s' h = omega (arith, h)
handle-Calls deps diff s (err (schema_validation issues)) s' h =
    omega (arith, h, validated-Calls deps diff true s')
handle-Calls deps diff s (err (glob e)) s' h = omega (arith, h)
handle-Calls deps diff s (err (secret_leak p k t why)) s' h = omega (arith, h)
handle-Calls deps diff s (err (cost_exceeded c k)) s' h = omega (arith, h)
handle-Calls deps diff s (err (other t)) s' h = omega (arith, h)

main-Calls : (deps : ReviewDeps) (diff : Text) (s : RunState) → Calls 2 s (main deps diff s)
unfolding main
main-Calls deps diff s =
    handle-Calls deps diff s (validated deps diff false s).0 (validated deps diff false s).1
      (validated-Calls deps diff false s)

before-Calls :
    (e : ℕ) (d : CostGuardDecision) (s : RunState) → Calls 0 s (before guard_options e d s)
unfolding record_exceeded
before-Calls e proceed s = omega arith
before-Calls e fallback s = omega arith
before-Calls e (abort reason running cap) s = omega arith
before-Calls e (kill running cap) s = omega arith

settle-Calls :
    (cap : ℕ) (estimate : Result RunError ℕ) (t : CostTotals) (out : Output) (s : RunState)
    → Calls 0 s (settle guard_options cap estimate t out s)
unfolding settle record_exceeded
settle-Calls cap estimate t out s = ground arith

module _ (deps : ReviewDeps) (diff : Text) (cap : ℕ) where
  abbrev after_totals : ℕ → CostTotals → Run Output
  after_totals e t =
      before guard_options e (decision guard_options cap e t)
      >> (main deps diff >>= settle guard_options cap deps.estimate_cost t)

  after_totals-Calls : (e : ℕ) (t : CostTotals) (s : RunState) → Calls 2 s (after_totals e t s)
  after_totals-Calls e t s =
      Calls->>= 0 2 (before guard_options e (decision guard_options cap e t))
        (λ _. main deps diff >>= settle guard_options cap deps.estimate_cost t) s
        (before-Calls e (decision guard_options cap e t) s)
        λ _ s₁.
          Calls->>= 2 0 (main deps diff) (settle guard_options cap deps.estimate_cost t) s₁
            (main-Calls deps diff s₁) λ out s₂. settle-Calls cap deps.estimate_cost t out s₂

  guarded-Calls :
      (s : RunState) → Calls 2 s (guarded guard_options cap deps.estimate_cost (main deps diff) s)
  unfolding guarded
  guarded-Calls s =
      Calls->>= 0 2 (call estimated deps.estimate_cost)
        (λ e. totals guard_options none >>= after_totals e) s
        (omega (arith, generations-append s.log (estimated ∷ [])))
        λ e s₁.
          Calls->>= 0 2 (totals guard_options none) (after_totals e) s₁ (omega arith)
            λ t s₂. after_totals-Calls e t s₂

generate_review-Calls :
    (job : ReviewJob) (deps : ReviewDeps) (diff : Text) (s : RunState)
    → Calls 2 s (generate_review job deps diff s)
unfolding generate_review compose cost_guard
generate_review-Calls job deps diff s = elim (Bool-cases (job.cost_cap == 0)) [
  | inl e ↦ rw e (main-Calls deps diff s)
  | inr e ↦ rw e (guarded-Calls deps diff job.cost_cap s)
]

refuse_secrets-Calls :
    (phase : LeakPhase) (findings : List GitleaksFinding) (s : RunState)
    → Calls 0 s (refuse_secrets phase findings s)
unfolding refuse_secrets
refuse_secrets-Calls phase findings s = ground arith

compiled-Calls : (r : Result GlobError (List (List Node))) (s : RunState) → Calls 0 s (compiled r s)
compiled-Calls (ok patterns) s = omega arith
compiled-Calls (err e) s = omega arith

rows_of-Calls :
    (o : Option (Result RunError (List FactRow))) (s : RunState) → Calls 0 s (rows_of o s)
rows_of-Calls none s = omega arith
rows_of-Calls (some r) s = omega arith

module _ (job : ReviewJob) (deps : ReviewDeps) (rejected suppressed : List Text) where
  finish-Calls :
      (a : Admitted) (out : Output) (s : RunState)
      → Calls 0 s (finish job deps rejected suppressed a.exclusions out s)
  unfolding finish
  finish-Calls a out s =
      Calls->>= 0 0
        (refuse_secrets LeakPhase.output
          (output_findings job deps out (filtered_kept job deps rejected suppressed out)))
        (λ _ s'. (
          ok (
              posted job deps rejected suppressed a.exclusions out
                (filtered_kept job deps rejected suppressed out)
                (output_findings job deps out (filtered_kept job deps rejected suppressed out))
                s'.tool_calls s'.total_cost),
          s',
        ))
        s
        (refuse_secrets-Calls LeakPhase.output
          (output_findings job deps out (filtered_kept job deps rejected suppressed out)) s)
        λ _ s'. omega arith

  answered-Calls :
      (a : Admitted) (s : RunState) (r : Result RunError Output) (s' : RunState)
      → Calls 2 s (r, s')
      → Calls 2 s (answered job deps rejected suppressed a.exclusions (r, s'))
  unfolding answered
  answered-Calls a s (ok out) s' h = omega (arith, h, finish-Calls a out s')
  answered-Calls a s (err (schema_validation issues)) s' h = h
  answered-Calls a s (err (glob e)) s' h = h
  answered-Calls a s (err (secret_leak p k t why)) s' h = h
  answered-Calls a s (err (cost_exceeded c k)) s' h = h
  answered-Calls a s (err (other t)) s' h = h

  abbrev called : Admitted → Run RunnerResult
  called a s =
      answered job deps rejected suppressed a.exclusions
        (generate_review job deps (effective_diff job deps a) s)

  admitted-Calls :
      (a : Admitted) (s : RunState) → Calls 2 s (review_admitted job deps rejected suppressed a s)
  unfolding review_admitted
  admitted-Calls a s =
      Calls->>= 0 2 (refuse_secrets LeakPhase.diff (deps.scan_content (effective_diff job deps a)))
        (λ _. compiled (compile_filters job.deny_paths) >> called a) s
        (refuse_secrets-Calls LeakPhase.diff (deps.scan_content (effective_diff job deps a)) s)
        λ _ s₁.
          Calls->>= 0 2 (compiled (compile_filters job.deny_paths)) (λ _. called a) s₁
            (compiled-Calls (compile_filters job.deny_paths) s₁)
            λ _ s₂.
              answered-Calls a s₂ (generate_review job deps (effective_diff job deps a) s₂).0
                (generate_review job deps (effective_diff job deps a) s₂).1
                (generate_review-Calls job deps (effective_diff job deps a) s₂)

  capped-Calls :
      (o : Result GlobError CapOutcome) (s : RunState)
      → Calls 2 s (review_capped job deps rejected suppressed o s)
  unfolding review_capped
  capped-Calls (err e) s = omega arith
  capped-Calls (ok (skipped r)) s = omega arith
  capped-Calls (ok (admitted a)) s = admitted-Calls a s

abbrev capped : ReviewJob → ReviewDeps → List FactRow → List FactRow → Run RunnerResult
capped job deps history suppressions =
    review_capped job deps (rejected_fingerprints history) (suppressed_fingerprints suppressions)
      (cap_pipeline job deps)

-- A review calls the model at most twice, however it ends.
pub run_review_inner-calls :
    (job : ReviewJob) (deps : ReviewDeps) → generations (run_review_inner job deps).1.log ≤ 2
unfolding run_review_inner
run_review_inner-calls job deps =
    Calls->>= 0 2 (rows_of deps.history)
      (λ history. rows_of deps.suppressions >>= capped job deps history) start
      (rows_of-Calls deps.history start)
      λ history s₁.
        Calls->>= 0 2 (rows_of deps.suppressions) (capped job deps history) s₁
          (rows_of-Calls deps.suppressions s₁)
          λ suppressions s₂.
            capped-Calls job deps (rejected_fingerprints history)
              (suppressed_fingerprints suppressions) (cap_pipeline job deps) s₂
