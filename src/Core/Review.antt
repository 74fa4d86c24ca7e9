-- ===== src/Core/Review.antt =====
-- packages/core/src/review.ts: findings, the state of a pull request, and the review event.
use review_agent.Common.{ℕ, Option, List, [], ◌∷◌, Text, leb, if◌then◌else◌}

pub data Severity : Type 0 where
  critical major minor info : Severity

pub data Side : Type 0 where
  left right : Side

pub data Confidence : Type 0 where
  high medium low : Confidence

pub data Category : Type 0 where
  bug security performance maintainability style docs test : Category

pub record InlineComment : Type 0 where
  pub path : Text
  pub line : ℕ
  pub side : Side
  pub body : Text
  pub fingerprint : Text
  pub severity : Severity
  pub category : Option Category
  pub confidence : Option Confidence
  pub rule_id : Option Text
  pub suggestion : Option Text

-- `schemaVersion` is the literal 1; the time and the cost are numbers of a fixed unit
pub record ReviewState : Type 0 where
  pub last_reviewed_sha : Text
  pub base_sha : Text
  pub reviewed_at : ℕ
  pub model_used : Text
  pub total_tokens : ℕ
  pub total_cost : ℕ
  pub comment_fingerprints : List Text

pub data ReviewEvent : Type 0 where
  comment request_changes approve : ReviewEvent

pub data RequestChangesThreshold : Type 0 where
  critical major never : RequestChangesThreshold

abbrev pub severity_rank : Severity → ℕ
severity_rank critical = 3
severity_rank major = 2
severity_rank minor = 1
severity_rank info = 0

-- the loop of `computeReviewEvent`; only the severities of the comments are read
event_from : ℕ → List Severity → ReviewEvent
event_from floor [] = comment
event_from floor (s ∷ severities) =
    let rest = event_from floor severities in
    if leb floor (severity_rank s) then request_changes else rest

unfoldable pub compute_review_event : List Severity → RequestChangesThreshold → ReviewEvent
unfolding event_from
compute_review_event severities never = comment
compute_review_event severities critical = event_from (severity_rank critical) severities
compute_review_event severities major = event_from (severity_rank major) severities
