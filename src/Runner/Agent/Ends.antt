-- ===== src/Runner/Agent/Ends.antt =====
-- The ways in which `runReviewInner` returns.
use review_agent.Common.{
  ℕ, ◌≡◌, ◌⊎◌, refl, sym, Option, none, some, List, [], Text, Result, ok, err, ok-injective, inl,
  inr,
}
use review_agent.Core.Glob.{Node, GlobError}
use review_agent.Runner.DiffFilter.{compile_filters}
use review_agent.Runner.Effects.{
  LeakPhase, RunError, glob, secret_leak, schema_validation, cost_exceeded, other, Issue, RunState,
  >>=-eq-ok, >>=-eq-ok-still,
}
use review_agent.Runner.Gitleaks.{
  GitleaksFinding, AbortDecision, proceed, too_many, high_confidence, should_abort_review,
}
use review_agent.Runner.Types.{RunnerResult, FactRow}
use review_agent.Runner.Agent.Job.{ReviewJob, ReviewDeps}
use review_agent.Runner.Agent.Caps.{Admitted, CapOutcome, skipped, admitted, cap_pipeline}
use review_agent.Runner.Agent.Generate.{Output, generate_review}
use review_agent.Runner.Agent.{
  rows_of, refuse_secrets, filtered_kept, output_findings, posted, finish, abort_result, answered,
  effective_diff, compiled, review_admitted, review_capped, start, rejected_fingerprints,
  suppressed_fingerprints, run_review_inner,
}

pub Decision-cases :
    (d : AbortDecision)
    → (d ≡ proceed) ⊎ (((n : ℕ) × (d ≡ too_many n)) ⊎ ((t : Text) × (d ≡ high_confidence t)))
Decision-cases proceed = inl refl
Decision-cases (too_many n) = inr (inl (n, refl))
Decision-cases (high_confidence t) = inr (inr (t, refl))

pub refuse_secrets-proceed :
    (phase : LeakPhase) (findings : List GitleaksFinding) (s : RunState)
    → (refuse_secrets phase findings s).0 ≡ ok tt
    → (should_abort_review findings ≡ proceed) × (refuse_secrets phase findings s ≡ (ok tt, s))
unfolding refuse_secrets
refuse_secrets-proceed phase findings s = elim (Decision-cases (should_abort_review findings)) [
  | inl e ↦ rw (e, refuse_secrets) λ h. (refl, refl)
  | inr (inl (n, e)) ↦ rw (e, refuse_secrets) λ h. cc
  | inr (inr (t, e)) ↦ rw (e, refuse_secrets) λ h. cc
]

compiled-ok :
    (r : Result GlobError (List (List Node))) (s : RunState)
    → (compiled r s).0 ≡ ok tt
    → compiled r s ≡ (ok tt, s)
compiled-ok (ok patterns) s h = refl
compiled-ok (err e) s h = cc

-- what a reader answered; without a reader there are no rows
abbrev pub read : Option (Result RunError (List FactRow)) → List FactRow
read (some (ok rows)) = rows
read _ = []

rows_of-read :
    (o : Option (Result RunError (List FactRow))) (s : RunState) {rows : List FactRow}
    → (rows_of o s).0 ≡ ok rows
    → rows_of o s ≡ (ok (read o), s)
rows_of-read none s h = refl
rows_of-read (some (ok x)) s h = refl
rows_of-read (some (err e)) s h = cc

module _ (job : ReviewJob) (deps : ReviewDeps) where
  -- how a review with these rejected and suppressed fingerprints returned
  pub data Ends (rejected suppressed : List Text) (r : RunnerResult) : Type 0 where
    at_cap : cap_pipeline job deps ≡ ok (skipped r) → Ends rejected suppressed r
    given_up :
        (a : Admitted) (issues : List Issue) (s : RunState)
        → cap_pipeline job deps ≡ ok (admitted a)
        → should_abort_review (deps.scan_content (effective_diff job deps a)) ≡ proceed
        → generate_review job deps (effective_diff job deps a) start
          ≡ (err (schema_validation issues), s)
        → r ≡ abort_result job deps a.exclusions issues s
        → Ends rejected suppressed r
    reviewed :
        (a : Admitted) (out : Output) (s : RunState)
        → cap_pipeline job deps ≡ ok (admitted a)
        → should_abort_review (deps.scan_content (effective_diff job deps a)) ≡ proceed
        → generate_review job deps (effective_diff job deps a) start ≡ (ok out, s)
        → should_abort_review
            (output_findings job deps out (filtered_kept job deps rejected suppressed out))
          ≡ proceed
        → r
          ≡ posted job deps rejected suppressed a.exclusions out
              (filtered_kept job deps rejected suppressed out)
              (output_findings job deps out (filtered_kept job deps rejected suppressed out))
              s.tool_calls
              s.total_cost
        → Ends rejected suppressed r

  -- Out of `finish`, only a scan that goes on returns.
  finish-posted :
      (rejected suppressed : List Text) (a : Admitted) (out : Output) (s : RunState)
      {r : RunnerResult}
      → (finish job deps rejected suppressed a.exclusions out s).0 ≡ ok r
      → (should_abort_review
            (output_findings job deps out (filtered_kept job deps rejected suppressed out))
          ≡ proceed)
        × (r
            ≡ posted job deps rejected suppressed a.exclusions out
                (filtered_kept job deps rejected suppressed out)
                (output_findings job deps out (filtered_kept job deps rejected suppressed out))
                s.tool_calls
                s.total_cost)
  unfolding finish
  finish-posted rejected suppressed a out s h =
      let findings =
        output_findings job deps out (filtered_kept job deps rejected suppressed out) in
      let (u, p, q) = >>=-eq-ok (refuse_secrets LeakPhase.output findings) _ s h in
      let (e, k) = refuse_secrets-proceed LeakPhase.output findings s p in
      (e, ok-injective (sym (rw k at h)))

  answered-Ends :
      (rejected suppressed : List Text) (a : Admitted) (s : RunState) {r : RunnerResult}
      → cap_pipeline job deps ≡ ok (admitted a)
      → should_abort_review (deps.scan_content (effective_diff job deps a)) ≡ proceed
      → (g : Result RunError Output) (s' : RunState)
      → generate_review job deps (effective_diff job deps a) start ≡ (g, s')
      → (answered job deps rejected suppressed a.exclusions (g, s')).0 ≡ ok r
      → Ends rejected suppressed r
  unfolding answered
  answered-Ends rejected suppressed a s c d (ok out) s' g h =
      let (e, p) = finish-posted rejected suppressed a out s' h in reviewed a out s' c d g e p
  answered-Ends rejected suppressed a s c d (err (schema_validation issues)) s' g h =
      given_up a issues s' c d g (ok-injective (sym h))
  answered-Ends rejected suppressed a s c d (err (glob x)) s' g h = cc
  answered-Ends rejected suppressed a s c d (err (secret_leak p n t why)) s' g h = cc
  answered-Ends rejected suppressed a s c d (err (cost_exceeded n m)) s' g h = cc
  answered-Ends rejected suppressed a s c d (err (other t)) s' g h = cc

  admitted-Ends :
      (rejected suppressed : List Text) (a : Admitted) {r : RunnerResult}
      → cap_pipeline job deps ≡ ok (admitted a)
      → (review_admitted job deps rejected suppressed a start).0 ≡ ok r
      → Ends rejected suppressed r
  unfolding review_admitted
  admitted-Ends rejected suppressed a c h =
      let diff_findings = deps.scan_content (effective_diff job deps a) in
      let (_, p, _) = >>=-eq-ok (refuse_secrets LeakPhase.diff diff_findings) _ start h in
      let h₁ =
        >>=-eq-ok-still (refuse_secrets LeakPhase.diff diff_findings) _ start tt
          (λ _ e. (refuse_secrets-proceed LeakPhase.diff diff_findings start e).1) h in
      let h₂ =
        >>=-eq-ok-still (compiled (compile_filters job.deny_paths)) _ start tt
          (λ _ e. compiled-ok (compile_filters job.deny_paths) start e) h₁ in
      answered-Ends rejected suppressed a start c
        (refuse_secrets-proceed LeakPhase.diff diff_findings start p).0
        (generate_review job deps (effective_diff job deps a) start).0
        (generate_review job deps (effective_diff job deps a) start).1 refl h₂

  capped-Ends :
      (rejected suppressed : List Text) (o : Result GlobError CapOutcome) {r : RunnerResult}
      → cap_pipeline job deps ≡ o
      → (review_capped job deps rejected suppressed o start).0 ≡ ok r
      → Ends rejected suppressed r
  unfolding review_capped
  capped-Ends rejected suppressed (err e) c h = cc
  capped-Ends rejected suppressed (ok (skipped r)) c h = at_cap (rw (ok-injective h) at c)
  capped-Ends rejected suppressed (ok (admitted a)) c h = admitted-Ends rejected suppressed a c h

  -- A review that returned ended in one of these ways.
  pub run_review_inner-Ends :
      {r : RunnerResult}
      → (run_review_inner job deps).0 ≡ ok r
      → Ends
          (rejected_fingerprints (read deps.history))
          (suppressed_fingerprints (read deps.suppressions))
          r
  unfolding run_review_inner
  run_review_inner-Ends h =
      let h₁ =
        >>=-eq-ok-still (rows_of deps.history) _ start (read deps.history)
          (λ _ e. rows_of-read deps.history start e) h in
      let h₂ =
        >>=-eq-ok-still (rows_of deps.suppressions) _ start (read deps.suppressions)
          (λ _ e. rows_of-read deps.suppressions start e) h₁ in
      capped-Ends _ _ (cap_pipeline job deps) refl h₂
