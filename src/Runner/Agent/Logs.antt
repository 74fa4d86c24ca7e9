-- ===== src/Runner/Agent/Logs.antt =====
-- What the calls of a review add to the log.
use review_agent.Common.{
  ℕ, ◌+◌, ◌&&◌, ltb, Bool, true, false, List, [], ◌∷◌, All, All-append, Text, Option, none, some,
  Result, ok, err, Result-cases, Bool-cases, inl, inr, ◌==◌,
}
use review_agent.Core.Glob.{GlobError, Node}
use review_agent.Core.Cost.{CostGuardDecision, proceed, fallback, abort, kill}
use review_agent.Runner.Effects.{
  RunError, LeakPhase, glob, secret_leak, schema_validation, cost_exceeded, other, Issue, Effect,
  generated, RunState, Run, ◌>>=◌, ◌>>◌, >>=-ok, >>=-err, call, estimated,
}
use review_agent.Runner.CostGuard.{
  CostTotals, before, totals, decision, settle, guarded, cost_guard, record_exceeded,
}
use review_agent.Runner.Gitleaks.{GitleaksFinding, should_abort_review}
use review_agent.Runner.Types.{FactRow}
use review_agent.Runner.Agent.Job.{ReviewJob, ReviewDeps}
use review_agent.Runner.Agent.Ends.{Decision-cases}
use review_agent.Runner.Agent.Generate.{
  Output, rejected_by, attempt, handle, validated, main, compose, guard_options, generate_review,
}
use review_agent.Runner.Agent.{rows_of, refuse_secrets, compiled}

-- `m` adds to the log only effects that `P` holds of
module _ (P : Effect → Type 0) where
  abbrev pub Logs : {A : Type 0} → Run A → Type 0
  Logs m = (s : RunState) → All P s.log → All P (m s).1.log

  pub Logs->>= :
      {A B : Type 0} (m : Run A) (f : A → Run B) → Logs m → ((a : A) → Logs (f a)) → Logs (m >>= f)
  Logs->>= m f h g s l = elim (Result-cases (m s).0) [
    | inl (a, e) ↦ rw (>>=-ok m f s a e) (g a (m s).1 (h s l))
    | inr (x, e) ↦ rw (>>=-err m f s x e) (h s l)
  ]

  pub refuse_secrets-Logs :
      (phase : LeakPhase) (findings : List GitleaksFinding) → Logs (refuse_secrets phase findings)
  unfolding refuse_secrets
  refuse_secrets-Logs phase findings s l = elim (Decision-cases (should_abort_review findings)) [
    | inl e ↦ rw (e, refuse_secrets) l
    | inr (inl (n, e)) ↦ rw (e, refuse_secrets) l
    | inr (inr (t, e)) ↦ rw (e, refuse_secrets) l
  ]

  pub compiled-Logs : (r : Result GlobError (List (List Node))) → Logs (compiled r)
  compiled-Logs (ok patterns) s l = l
  compiled-Logs (err e) s l = l

  pub rows_of-Logs : (o : Option (Result RunError (List FactRow))) → Logs (rows_of o)
  rows_of-Logs none s l = l
  rows_of-Logs (some r) s l = l

  before-Logs : (e : ℕ) (d : CostGuardDecision) → Logs (before guard_options e d)
  unfolding record_exceeded
  before-Logs e proceed s l = l
  before-Logs e fallback s l = l
  before-Logs e (abort reason running cap) s l = l
  before-Logs e (kill running cap) s l = l

  settle-Logs :
      (cap : ℕ) (estimate : Result RunError ℕ) (t : CostTotals) (out : Output)
      → Logs (settle guard_options cap estimate t out)
  unfolding settle record_exceeded
  settle-Logs cap estimate t out s l =
      elim (Bool-cases (ltb 0 cap && ltb cap (t.running + out.cost))) [
        | inl e ↦ rw e l
        | inr e ↦ rw e l
      ]

  rejected_by-Logs : (issues : List Issue) (out : Output) → Logs (rejected_by issues out)
  rejected_by-Logs [] out s l = l
  rejected_by-Logs (i ∷ issues) out s l = l

  module _ (deps : ReviewDeps) (diff : Text) (sent : (retry : Bool) → P (generated diff retry))
      (asked : P estimated) where
    validated-Logs : (retry : Bool) → Logs (validated deps diff retry)
    unfolding validated attempt
    validated-Logs retry =
        Logs->>= (attempt deps diff retry) (λ out. rejected_by (deps.validate out) out)
          (λ s l. All-append P s.log (generated diff retry ∷ []) l (sent retry, tt))
          λ out. rejected_by-Logs (deps.validate out) out

    handle-Logs :
        (r : Result RunError Output) (s : RunState)
        → All P s.log
        → All P (handle (validated deps diff true) (r, s)).1.log
    handle-Logs (ok out) s l = l
    handle-Logs (err (schema_validation issues)) s l = validated-Logs true s l
    handle-Logs (err (glob e)) s l = l
    handle-Logs (err (secret_leak p k t why)) s l = l
    handle-Logs (err (cost_exceeded c k)) s l = l
    handle-Logs (err (other t)) s l = l

    main-Logs : Logs (main deps diff)
    unfolding main
    main-Logs s l =
        handle-Logs (validated deps diff false s).0 (validated deps diff false s).1
          (validated-Logs false s l)

    module _ (cap : ℕ) where
      abbrev after_totals : ℕ → CostTotals → Run Output
      after_totals e t =
          before guard_options e (decision guard_options cap e t)
          >> (main deps diff >>= settle guard_options cap deps.estimate_cost t)

      after_totals-Logs : (e : ℕ) (t : CostTotals) → Logs (after_totals e t)
      after_totals-Logs e t =
          Logs->>= (before guard_options e (decision guard_options cap e t))
            (λ _. main deps diff >>= settle guard_options cap deps.estimate_cost t)
            (before-Logs e (decision guard_options cap e t))
            λ _.
              Logs->>= (main deps diff) (settle guard_options cap deps.estimate_cost t) main-Logs
                (settle-Logs cap deps.estimate_cost t)

      guarded-Logs : Logs (guarded guard_options cap deps.estimate_cost (main deps diff))
      unfolding guarded
      guarded-Logs =
          Logs->>= (call estimated deps.estimate_cost)
            (λ e. totals guard_options none >>= after_totals e)
            (λ s l. All-append P s.log (estimated ∷ []) l (asked, tt))
            λ e.
              Logs->>= (totals guard_options none) (after_totals e) (λ s l. l) (after_totals-Logs e)

    pub generate_review-Logs : (job : ReviewJob) → Logs (generate_review job deps diff)
    unfolding generate_review compose cost_guard
    generate_review-Logs job s l = elim (Bool-cases (job.cost_cap == 0)) [
      | inl e ↦ rw e (main-Logs s l)
      | inr e ↦ rw e (guarded-Logs job.cost_cap s l)
    ]
