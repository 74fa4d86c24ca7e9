-- ===== src/Runner/Dedup.antt =====
-- packages/runner/src/middleware/dedup.ts. The fingerprint function hashes by a library, and is a
-- parameter, as in the source's `fingerprintFn`.
pub mod Fresh
mod Tests
use review_agent.Common.{
  ℕ, ◌+◌, Option, none, some, List, [], ◌∷◌, ◌++◌, Text, text, has, or_default, if◌then◌else◌,
}
use review_agent.Core.Review.{Severity, critical, major, minor, info, InlineComment, ReviewState}
use review_agent.Runner.Types.{ReviewOutputComment, with_fingerprint, FingerprintInput}

abbrev severity_text : Severity → Text
severity_text critical = text "critical"
severity_text major = text "major"
severity_text minor = text "minor"
severity_text info = text "info"

abbrev rule_id_for : ReviewOutputComment → Text
rule_id_for c = or_default c.rule_id (severity_text c.severity)

-- an empty suggestion is falsy
abbrev suggestion_type : Option Text → Text
suggestion_type none = text "comment"
suggestion_type (some []) = text "comment"
suggestion_type (some (c ∷ t)) = text "replacement"

abbrev pub default_suggestion_type : ReviewOutputComment → Text
default_suggestion_type c = suggestion_type c.suggestion

-- the variables of the loop; at its end, the result
pub record DedupState : Type 0 where
  pub seen : List Text
  pub kept : List InlineComment
  pub dropped_count : ℕ
  pub dropped_by_feedback : ℕ

abbrev pub previous_fingerprints : Option ReviewState → List Text
previous_fingerprints none = []
previous_fingerprints (some state) = state.comment_fingerprints

module _ (fingerprint : FingerprintInput → Text)
    (suggestion_type_for : ReviewOutputComment → Text) where
  abbrev pub fingerprint_of : ReviewOutputComment → Text
  fingerprint_of c = fingerprint (record {
    path = c.path;
    line = c.line;
    rule_id = rule_id_for c;
    suggestion_type = suggestion_type_for c;
  })

  unfoldable pub dedup_step : List Text → DedupState → ReviewOutputComment → DedupState
  dedup_step rejected s c =
      if has rejected (fingerprint_of c)
      then record s { dropped_by_feedback = s.dropped_by_feedback + 1 }
      else if has s.seen (fingerprint_of c)
      then record s { dropped_count = s.dropped_count + 1 }
      else record s {
        seen = fingerprint_of c ∷ s.seen;
        kept = s.kept ++ (with_fingerprint c (fingerprint_of c) ∷ []);
      }

  unfoldable pub dedup_loop : List Text → DedupState → List ReviewOutputComment → DedupState
  dedup_loop rejected s [] = s
  dedup_loop rejected s (c ∷ comments) = dedup_loop rejected (dedup_step rejected s c) comments

  unfoldable pub dedup_comments :
      List ReviewOutputComment → Option ReviewState → List Text → DedupState
  unfolding dedup_loop dedup_step has
  dedup_comments comments previous rejected =
      dedup_loop rejected
        (record {
          seen = previous_fingerprints previous;
          kept = [];
          dropped_count = 0;
          dropped_by_feedback = 0;
        })
        comments
