-- ===== src/Runner/Agent/Secrets.antt =====
-- Which diffs reach the model.
use review_agent.Common.{
  ◌<◌, ◌≡◌, ◌⊎◌, refl, sym, ap, ◌∙◌, Bool, true, false, not, List, All, filter, length, Text,
  Result, ok, err, Result-cases, inl, inr, if◌then◌else◌,
}
use review_agent.Core.Glob.{GlobError}
use review_agent.Runner.DiffFilter.{
  ParsedDiff, compile_filters, parse_diff_by_file, reassemble_diff, apply_path_filters,
}
use review_agent.Runner.DiffFilter.Filtered.{is_filtered, IsFiltered, Ends, apply_path_filters-Ends}
use review_agent.Runner.DiffFilter.Filters.{filtered-unchanged}
use review_agent.Runner.Effects.{
  RunError, LeakPhase, glob, secret_leak, schema_validation, cost_exceeded, other, Effect,
  generated, RunState, Run, ◌>>=◌, ◌>>◌, >>=-ok, >>=-err,
}
use review_agent.Runner.Gitleaks
use review_agent.Runner.Gitleaks.{GitleaksFinding, should_abort_review}
use review_agent.Runner.Types.{RunnerResult, FactRow}
use review_agent.Runner.Agent.Job.{ReviewJob, ReviewDeps}
use review_agent.Runner.Agent.Caps.{Admitted, CapOutcome, skipped, admitted, cap_pipeline}
use review_agent.Runner.Agent.Caps.Reports.{Capped, cap_pipeline-Capped}
use review_agent.Runner.Agent.Logs.{
  Logs, Logs->>=, refuse_secrets-Logs, compiled-Logs, rows_of-Logs, generate_review-Logs,
}
use review_agent.Runner.Agent.Ends.{refuse_secrets-proceed}
use review_agent.Runner.Agent.Generate.{Output, generate_review}
use review_agent.Runner.Agent.{
  rows_of, refuse_secrets, compiled, finish, posted, filtered_kept, output_findings, answered,
  review_admitted, review_capped, start, effective_diff, rejected_fingerprints,
  suppressed_fingerprints, run_review_inner,
}

-- What the model may be given: a diff whose scan says to go on, which holds exactly the files of the
-- job's diff that no path filter matches, in order, and which is the job's diff itself unless a file
-- was dropped.
pub record IsCleared (job : ReviewJob) (deps : ReviewDeps) (diff : Text) : Type 0 where
  pub scanned : should_abort_review (deps.scan_content diff) ≡ Gitleaks.proceed
  pub files :
      (parse_diff_by_file diff).files
      ≡ filter (λ f. not (is_filtered job.path_filters f)) (parse_diff_by_file job.diff_text).files
  pub whole :
      (diff ≡ job.diff_text)
      ⊎ (length (parse_diff_by_file diff).files < length (parse_diff_by_file job.diff_text).files)

module _ (job : ReviewJob) (deps : ReviewDeps) where
  abbrev pub IsSafe : Effect → Type 0
  IsSafe (generated diff retry) = IsCleared job deps diff
  IsSafe _ = Unit

  chosen-IsCleared :
      (d : ParsedDiff) (applied : Bool)
      → apply_path_filters (parse_diff_by_file job.diff_text) job.path_filters ≡ ok (d, applied)
      → IsFiltered job.diff_text job.path_filters d applied
      → should_abort_review
          (deps.scan_content (if applied then reassemble_diff d else job.diff_text))
        ≡ Gitleaks.proceed
      → IsCleared job deps (if applied then reassemble_diff d else job.diff_text)
  chosen-IsCleared d true e k scan = record {
    scanned = scan;
    files = ap (λ p. p.files) k.reread ∙ k.files;
    whole = inr (rw k.reread (k.shrinks.0 refl));
  }
  chosen-IsCleared d false e k scan = record {
    scanned = scan;
    files =
        sym (filtered-unchanged (parse_diff_by_file job.diff_text) job.path_filters e) ∙ k.files;
    whole = inl refl;
  }

  admitted-IsCleared :
      (a : Admitted) (r : Result GlobError (ParsedDiff × Bool))
      → apply_path_filters (parse_diff_by_file job.diff_text) job.path_filters ≡ r
      → Ends job.diff_text job.path_filters r
      → Capped job (parse_diff_by_file job.diff_text) r (ok (admitted a))
      → should_abort_review (deps.scan_content (effective_diff job deps a)) ≡ Gitleaks.proceed
      → IsCleared job deps (effective_diff job deps a)
  admitted-IsCleared a (err x) e k c = absurd c
  admitted-IsCleared a (ok (d, applied)) e k (_, p, q, _) =
      rw (p, q) (chosen-IsCleared d applied e k)

  module _ (rejected suppressed : List Text) where
    finish-Logs :
        (a : Admitted) (out : Output)
        → Logs IsSafe (finish job deps rejected suppressed a.exclusions out)
    unfolding finish
    finish-Logs a out =
        let findings =
          output_findings job deps out (filtered_kept job deps rejected suppressed out) in
        Logs->>= IsSafe (refuse_secrets LeakPhase.output findings)
          (λ _ s. (
            ok (
                posted job deps rejected suppressed a.exclusions out
                  (filtered_kept job deps rejected suppressed out) findings s.tool_calls
                  s.total_cost),
            s,
          ))
          (refuse_secrets-Logs IsSafe LeakPhase.output findings) λ _ s l. l

    answered-Logs :
        (a : Admitted) (r : Result RunError Output) (s : RunState)
        → All IsSafe s.log
        → All IsSafe (answered job deps rejected suppressed a.exclusions (r, s)).1.log
    unfolding answered
    answered-Logs a (ok out) s l = finish-Logs a out s l
    answered-Logs a (err (schema_validation issues)) s l = l
    answered-Logs a (err (glob e)) s l = l
    answered-Logs a (err (secret_leak p k t why)) s l = l
    answered-Logs a (err (cost_exceeded c k)) s l = l
    answered-Logs a (err (other t)) s l = l

    abbrev called : Admitted → Run RunnerResult
    called a s =
        answered job deps rejected suppressed a.exclusions
          (generate_review job deps (effective_diff job deps a) s)

    called-Logs :
        (a : Admitted) → IsCleared job deps (effective_diff job deps a) → Logs IsSafe (called a)
    called-Logs a c s l =
        let diff = effective_diff job deps a in
        answered-Logs a (generate_review job deps diff s).0 (generate_review job deps diff s).1
          (generate_review-Logs IsSafe deps diff (λ retry. c) tt job s l)

    -- the scan comes first, and lets the rest run only if it says to go on
    admitted-Logs :
        (a : Admitted)
        → (should_abort_review (deps.scan_content (effective_diff job deps a)) ≡ Gitleaks.proceed
            → IsCleared job deps (effective_diff job deps a))
        → Logs IsSafe (review_admitted job deps rejected suppressed a)
    unfolding review_admitted
    admitted-Logs a cleared s l =
        let findings = deps.scan_content (effective_diff job deps a) in
        let scan = refuse_secrets LeakPhase.diff findings in
        let rest : Run RunnerResult = compiled (compile_filters job.deny_paths) >> called a in
        elim (Result-cases (scan s).0) [
          | inr (x, e) ↦
              rw (>>=-err scan (λ _. rest) s x e)
                (refuse_secrets-Logs IsSafe LeakPhase.diff findings s l)
          | inl (u, e) ↦ rw (>>=-ok scan (λ _. rest) s u e) (
              Logs->>= IsSafe (compiled (compile_filters job.deny_paths)) (λ _. called a)
                (compiled-Logs IsSafe (compile_filters job.deny_paths))
                (λ _.
                  called-Logs a (cleared (refuse_secrets-proceed LeakPhase.diff findings s e).0))
                (scan s).1 (refuse_secrets-Logs IsSafe LeakPhase.diff findings s l))
        ]

    capped-Logs :
        (o : Result GlobError CapOutcome)
        → cap_pipeline job deps ≡ o
        → Logs IsSafe (review_capped job deps rejected suppressed o)
    unfolding review_capped
    capped-Logs (err e) c = λ s l. l
    capped-Logs (ok (skipped r)) c = λ s l. l
    capped-Logs (ok (admitted a)) c = admitted-Logs a (
        admitted-IsCleared a _ refl (apply_path_filters-Ends job.diff_text job.path_filters)
          (rw c at (cap_pipeline-Capped job deps)))

  abbrev capped : List FactRow → List FactRow → Run RunnerResult
  capped history suppressions =
      review_capped job deps (rejected_fingerprints history) (suppressed_fingerprints suppressions)
        (cap_pipeline job deps)

  -- However a review ends, every call of the model was given a diff that was scanned before and whose
  -- scan says to go on; that holds exactly the files of the job's diff that no path filter matches,
  -- in order; and that is the job's diff itself unless a file was dropped.
  pub run_review_inner-secret : All IsSafe (run_review_inner job deps).1.log
  unfolding run_review_inner
  run_review_inner-secret =
      Logs->>= IsSafe (rows_of deps.history)
        (λ history. rows_of deps.suppressions >>= capped history) (rows_of-Logs IsSafe deps.history)
        (λ history.
          Logs->>= IsSafe (rows_of deps.suppressions) (capped history)
            (rows_of-Logs IsSafe deps.suppressions)
            λ suppressions.
              capped-Logs (rejected_fingerprints history) (suppressed_fingerprints suppressions)
                (cap_pipeline job deps) refl)
        start tt
