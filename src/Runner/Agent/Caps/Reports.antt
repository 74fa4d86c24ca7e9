-- ===== src/Runner/Agent/Caps/Reports.antt =====
-- When a review is refused for its size, and what the report of excluded files holds.
use review_agent.Common.{
  ◌≤◌, ◌<◌, ◌≡◌, ◌⊎◌, inl, inr, refl, Bool, true, false, not, ◌||◌, Option, none, some, List, [],
  ◌∷◌, ◌++◌, map, Text, text_eq, text_eq_refl, filter, any, length, if◌then◌else◌, arith, All,
  Bool-cases, ltb, Result, ok, err, ◌≢◌,
}
use review_agent.Core.Review.{comment}
use review_agent.Core.Glob.{GlobError}
use review_agent.Runner.DiffFilter.{
  ParsedDiff, ParsedDiffFile, parse_diff_by_file, apply_path_filters, count_diff_lines,
}
use review_agent.Runner.DiffFilter.Filters.{filtered-unchanged}
use review_agent.Runner.Types.{
  ExclusionReason, path_filter, ExcludedFile, ExclusionReport, RunnerResult,
}
use review_agent.Runner.Agent.Job.{ReviewJob, ReviewDeps}
use review_agent.Runner.Agent.Caps.{
  excluded, has_path, path_filter_exclusions, CapOutcome, skipped, admitted, build_cap_skip_result,
  check_caps, capped, cap_pipeline,
}

abbrev pub reported : List ExcludedFile → Text → Bool
reported es path = any (λ e. text_eq e.path path) es

reported-append :
    (es : List ExcludedFile) (reason : ExclusionReason) (fs : List ParsedDiffFile) (path : Text)
    → reported (es ++ map (excluded reason) fs) path ≡ (reported es path || has_path fs path)
reported-append [] reason [] path = refl
reported-append [] reason (f ∷ fs) path = ground (arith, reported-append [] reason fs path)
reported-append (e ∷ es) reason fs path = ground (arith, reported-append es reason fs path)

-- every file of `fs` is among the kept ones or in the list
abbrev pub Accounted : List ParsedDiffFile → List ExcludedFile → List ParsedDiffFile → Type 0
Accounted kept es fs = All (λ f. (has_path kept f.path || reported es f.path) ≡ true) fs

Accounted-cons :
    (kept : List ParsedDiffFile) (e : ExcludedFile) (es : List ExcludedFile)
    (fs : List ParsedDiffFile)
    → Accounted kept es fs
    → Accounted kept (e ∷ es) fs
Accounted-cons kept e es [] h = tt
Accounted-cons kept e es (f ∷ fs) (hf, h) = (ground arith, Accounted-cons kept e es fs h)

missing-step :
    (kept : List ParsedDiffFile) (f : ParsedDiffFile) (fs rest : List ParsedDiffFile)
    → Accounted kept (map (excluded path_filter) rest) fs
    → Accounted kept
        (map (excluded path_filter) (if not (has_path kept f.path) then f ∷ rest else rest))
        (f ∷ fs)
missing-step kept f fs rest h = (
  ground (arith, text_eq_refl f.path),
  elim (has_path kept f.path)
      as (λ b. Accounted kept (map (excluded path_filter) (if not b then f ∷ rest else rest)) fs) [
        | true ↦ h
        | false ↦ Accounted-cons kept (excluded path_filter f) _ fs h
      ],
)

missing-Accounted :
    (kept fs : List ParsedDiffFile)
    → Accounted kept (map (excluded path_filter) (filter (λ f. not (has_path kept f.path)) fs)) fs
missing-Accounted kept [] = tt
missing-Accounted kept (f ∷ fs) =
    missing-step kept f fs (filter (λ g. not (has_path kept g.path)) fs) (missing-Accounted kept fs)

kept-Accounted :
    (kept fs : List ParsedDiffFile)
    → All (λ f. has_path kept f.path ≡ true) fs
    → Accounted kept [] fs
kept-Accounted kept [] h = tt
kept-Accounted kept (f ∷ fs) (hf, h) = (ground arith, kept-Accounted kept fs h)

has_path-cons :
    (g : ParsedDiffFile) (kept fs : List ParsedDiffFile)
    → All (λ f. has_path kept f.path ≡ true) fs
    → All (λ f. has_path (g ∷ kept) f.path ≡ true) fs
has_path-cons g kept [] h = tt
has_path-cons g kept (f ∷ fs) (hf, h) = (ground arith, has_path-cons g kept fs h)

all_have_path : (fs : List ParsedDiffFile) → All (λ f. has_path fs f.path ≡ true) fs
all_have_path [] = tt
all_have_path (f ∷ fs) =
    (ground (arith, text_eq_refl f.path), has_path-cons f fs fs (all_have_path fs))

exclusions-Accounted :
    (parsed : ParsedDiff) (gs : List Text) (d : ParsedDiff) (applied : Bool)
    → apply_path_filters parsed gs ≡ ok (d, applied)
    → Accounted d.files (path_filter_exclusions parsed (d, applied)) parsed.files
unfolding path_filter_exclusions
exclusions-Accounted parsed gs d true e = missing-Accounted d.files parsed.files
exclusions-Accounted parsed gs d false e =
    rw (filtered-unchanged parsed gs e)
      (kept-Accounted parsed.files parsed.files (all_have_path parsed.files))

-- a refused review: nothing found, nothing spent, and a reason
pub record IsRefused (r : RunnerResult) : Type 0 where
  pub comments : r.comments ≡ []
  pub cost : r.cost ≡ 0
  pub event : r.review_event ≡ comment
  pub aborted : r.aborted ≢ none

abbrev pub excluded_files : Option ExclusionReport → List ExcludedFile
excluded_files none = []
excluded_files (some report) = report.excluded_files

-- the outcome of the caps, given that of the path filters
abbrev pub Capped :
    ReviewJob
    → ParsedDiff
    → Result GlobError (ParsedDiff × Bool)
    → Result GlobError CapOutcome
    → Type 0
Capped job parsed (err e) (err e') = e' ≡ e
Capped job parsed (ok (d, applied)) (ok (skipped r)) =
    ((job.max_files < length d.files) ⊎ (job.max_diff_lines < count_diff_lines d))
    × IsRefused r
    × All (λ f. reported (excluded_files r.exclusion_report) f.path ≡ true) parsed.files
Capped job parsed (ok (d, applied)) (ok (admitted a)) =
    ((length d.files ≤ job.max_files) × (count_diff_lines d ≤ job.max_diff_lines))
    × (a.filtered ≡ d)
    × (a.filters_applied ≡ applied)
    × Accounted d.files a.exclusions parsed.files
Capped job parsed _ _ = ⊥

Accounted-reported :
    (kept : List ParsedDiffFile) (es : List ExcludedFile) (reason : ExclusionReason)
    (fs : List ParsedDiffFile)
    → Accounted kept es fs
    → All (λ f. reported (es ++ map (excluded reason) kept) f.path ≡ true) fs
Accounted-reported kept es reason [] h = tt
Accounted-reported kept es reason (f ∷ fs) (hf, h) =
    (ground (arith, reported-append es reason kept f.path), Accounted-reported kept es reason fs h)

check_caps-Capped :
    (job : ReviewJob) (deps : ReviewDeps) (parsed d : ParsedDiff) (applied : Bool)
    (es : List ExcludedFile)
    → Accounted d.files es parsed.files
    → Capped job parsed (ok (d, applied)) (ok (check_caps job deps d applied es))
unfolding check_caps build_cap_skip_result
check_caps-Capped job deps parsed d applied es h =
    elim (Bool-cases (ltb job.max_files (length d.files))) [
      | inl e ↦ rw e (
        inl (ground arith),
        record { comments = refl; cost = refl; event = refl; aborted = λ q. cc },
        Accounted-reported d.files es _ parsed.files h,
      )
      | inr e ↦ rw e (elim (Bool-cases (ltb job.max_diff_lines (count_diff_lines d))) [
        | inl k ↦ rw k (
          inr (ground arith),
          record { comments = refl; cost = refl; event = refl; aborted = λ q. cc },
          Accounted-reported d.files es _ parsed.files h,
        )
        | inr k ↦ rw k ((ground arith, ground arith), refl, refl, h)
      ])
    ]

capped-Capped :
    (job : ReviewJob) (deps : ReviewDeps) (parsed : ParsedDiff)
    (r : Result GlobError (ParsedDiff × Bool))
    → ((d : ParsedDiff) (applied : Bool)
        → r ≡ ok (d, applied)
        → Accounted d.files (path_filter_exclusions parsed (d, applied)) parsed.files)
    → Capped job parsed r (capped job deps parsed r)
capped-Capped job deps parsed (err e) h = refl
capped-Capped job deps parsed (ok (d, applied)) h =
    check_caps-Capped job deps parsed d applied _ (h d applied refl)

-- If the path filters compile, a review is refused exactly if the files that they leave, or their
-- changed lines, are over a cap: it then has no comments, no cost, the event `COMMENT` and a
-- reason, and its report names every file of the diff. Otherwise it goes on with what the filters
-- left, and every file of the diff is left or named in the exclusions. If a filter does not
-- compile, its error is thrown.
pub cap_pipeline-Capped :
    (job : ReviewJob) (deps : ReviewDeps)
    → Capped job
        (parse_diff_by_file job.diff_text)
        (apply_path_filters (parse_diff_by_file job.diff_text) job.path_filters)
        (cap_pipeline job deps)
unfolding cap_pipeline
cap_pipeline-Capped job deps =
    capped-Capped job deps (parse_diff_by_file job.diff_text) _ (λ d applied e.
      exclusions-Accounted (parse_diff_by_file job.diff_text) job.path_filters d applied e)

Capped-skipped :
    (job : ReviewJob) (parsed : ParsedDiff) (r : Result GlobError (ParsedDiff × Bool))
    (s : RunnerResult)
    → Capped job parsed r (ok (skipped s))
    → IsRefused s
Capped-skipped job parsed (ok (d, applied)) s h = h.1
Capped-skipped job parsed (err e) s h = absurd h

pub skipped-IsRefused :
    (job : ReviewJob) (deps : ReviewDeps) {r : RunnerResult}
    → cap_pipeline job deps ≡ ok (skipped r)
    → IsRefused r
skipped-IsRefused job deps {r} e =
    Capped-skipped job (parse_diff_by_file job.diff_text) _ r
      (rw e at (cap_pipeline-Capped job deps))
