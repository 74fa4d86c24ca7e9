-- ===== src/Runner/Agent/Posted.antt =====
-- What a review that was not aborted posts.
use review_agent.Common.{
  ℕ, ◌≡◌, refl, ap, ◌∙◌, true, false, not, Option, none, some, or_default, List, [], ◌∷◌, map, Text,
  has, filter, Distinct, Distinct-map-filter, All, filter-All-pair, ok,
}
use review_agent.Core.Review.{low, InlineComment, RequestChangesThreshold, compute_review_event}
use review_agent.Runner.Dedup.{previous_fingerprints, default_suggestion_type}
use review_agent.Runner.Dedup.Fresh.{fingerprints, dedup_comments-IsDeduped}
use review_agent.Runner.Gitleaks.{GitleaksFinding}
use review_agent.Runner.Types.{RunnerResult}
use review_agent.Runner.Agent.Filters.{
  Ruleset, RulesetEntry, entry_for, effective_category, passes_entry, suppress, meets_confidence,
}
use review_agent.Runner.Agent.Filters.Kept.{passes, apply_ruleset_filter-filter}
use review_agent.Runner.Agent.Job.{ReviewJob, ReviewDeps}
use review_agent.Runner.Agent.Caps.Reports.{skipped-IsRefused}
use review_agent.Runner.Agent.Caps.{Admitted}
use review_agent.Runner.Agent.Generate.{Output}
use review_agent.Runner.Agent.{
  redact, deduped, ruled, confident, filtered_kept, rejected_fingerprints, suppressed_fingerprints,
  run_review_inner, abort_result, posted,
}
use review_agent.Runner.Agent.Ends.{Ends, at_cap, given_up, reviewed, read, run_review_inner-Ends}

passes_entry-redact :
    (e : Option RulesetEntry) (fs : List GitleaksFinding) (k : InlineComment)
    → passes_entry e (redact fs k) ≡ passes_entry e k
passes_entry-redact none fs k = refl
passes_entry-redact (some e) fs k = refl

passes-redact :
    (rules : Option Ruleset) (fs : List GitleaksFinding) (k : InlineComment)
    → passes rules (redact fs k) ≡ passes rules k
passes-redact none fs k = refl
passes-redact (some rules) fs k = passes_entry-redact (entry_for rules (effective_category k)) fs k

module _ (job : ReviewJob) (deps : ReviewDeps) (rejected suppressed : List Text) where
  abbrev pub IsNew : InlineComment → Type 0
  IsNew k =
      (has rejected k.fingerprint ≡ false)
      × (has (previous_fingerprints job.previous_state) k.fingerprint ≡ false)

  -- a finding that is new, not muted, confident enough, and of a category that the ruleset admits
  abbrev pub IsWanted : InlineComment → Type 0
  IsWanted k =
      (((IsNew k × (meets_confidence k.confidence (or_default job.min_confidence low) ≡ true))
          × (passes job.rules k ≡ true))
        × (not (has suppressed k.fingerprint) ≡ true))

  pub record IsPosted (r : RunnerResult) : Type 0 where
    pub distinct : Distinct (fingerprints r.comments)
    pub wanted : All IsWanted r.comments
    pub event :
        r.review_event
        ≡ compute_review_event
            (map (λ c. c.severity) r.comments)
            (or_default job.request_changes_on RequestChangesThreshold.critical)

  fingerprints-redact :
      (fs : List GitleaksFinding) (ks : List InlineComment)
      → fingerprints (map (redact fs) ks) ≡ fingerprints ks
  fingerprints-redact fs [] = refl
  fingerprints-redact fs (k ∷ ks) = ap (λ r. k.fingerprint ∷ r) (fingerprints-redact fs ks)

  -- the four filters of the review, one inside the other
  abbrev narrowed : Output → List InlineComment
  narrowed out =
      filter (λ c. not (has suppressed c.fingerprint))
        (filter (passes job.rules) (confident job deps (deduped job deps rejected out).kept))

  filtered_kept-narrowed :
      (out : Output) → filtered_kept job deps rejected suppressed out ≡ narrowed out
  unfolding filtered_kept ruled suppress
  filtered_kept-narrowed out =
      ap (filter (λ c. not (has suppressed c.fingerprint)))
        (apply_ruleset_filter-filter (confident job deps (deduped job deps rejected out).kept)
          job.rules).0

  narrowed-Distinct : (out : Output) → Distinct (fingerprints (narrowed out))
  unfolding deduped
  narrowed-Distinct out =
      Distinct-map-filter (λ k. k.fingerprint) _ _
        (Distinct-map-filter (λ k. k.fingerprint) _ _
          (Distinct-map-filter (λ k. k.fingerprint) _ _
            (dedup_comments-IsDeduped deps.fingerprint default_suggestion_type out.comments
              job.previous_state rejected).distinct))

  narrowed-IsWanted : (out : Output) → All IsWanted (narrowed out)
  unfolding deduped
  narrowed-IsWanted out = filter-All-pair _ _ _ (
      filter-All-pair _ _ _ (
        filter-All-pair IsNew _ _
          (dedup_comments-IsDeduped deps.fingerprint default_suggestion_type out.comments
            job.previous_state rejected).new))

  IsWanted-redact :
      (fs : List GitleaksFinding) (ks : List InlineComment)
      → All IsWanted ks
      → All IsWanted (map (redact fs) ks)
  IsWanted-redact fs [] h = tt
  IsWanted-redact fs (k ∷ ks) ((((new, sure), pass), loud), h) =
      ((((new, sure), passes-redact job.rules fs k ∙ pass), loud), IsWanted-redact fs ks h)

  posted-IsPosted :
      (a : Admitted) (out : Output) (fs : List GitleaksFinding) (tool_calls total_cost : ℕ)
      → IsPosted (
          posted job deps rejected suppressed a.exclusions out
            (filtered_kept job deps rejected suppressed out)
            fs
            tool_calls
            total_cost)
  unfolding posted
  posted-IsPosted a out fs tool_calls total_cost = rw (filtered_kept-narrowed out) (record {
    distinct = rw (fingerprints-redact fs (narrowed out)) (narrowed-Distinct out);
    wanted = IsWanted-redact fs (narrowed out) (narrowed-IsWanted out);
    event = refl;
  })

  Ends-IsPosted :
      {r : RunnerResult} → Ends job deps rejected suppressed r → r.aborted ≡ none → IsPosted r
  unfolding abort_result
  Ends-IsPosted (at_cap c) n = absurd ((skipped-IsRefused job deps c).aborted n)
  Ends-IsPosted (given_up a issues s c d g e) n = cc (ap (λ x. x.aborted) e)
  Ends-IsPosted (reviewed a out s c d g o e) n =
      rw e (posted-IsPosted a out _ s.tool_calls s.total_cost)

-- A review that returns without being aborted posts comments with different fingerprints, each
-- neither rejected in the history, nor posted by the previous review, nor suppressed; each is
-- confident enough and passes the ruleset; and its event is the one computed of these comments.
pub run_review_inner-IsPosted :
    (job : ReviewJob) (deps : ReviewDeps) {r : RunnerResult}
    → (run_review_inner job deps).0 ≡ ok r
    → r.aborted ≡ none
    → IsPosted job deps
        (rejected_fingerprints (read deps.history))
        (suppressed_fingerprints (read deps.suppressions))
        r
run_review_inner-IsPosted job deps h n =
    Ends-IsPosted job deps _ _ (run_review_inner-Ends job deps h) n
