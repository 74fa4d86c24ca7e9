-- ===== src/Runner/Agent/Filters.antt =====
-- The filters of packages/runner/src/agent.ts on the findings: confidence, ruleset, suppression.
pub mod Kept
pub mod Prefix
mod Tests
use review_agent.Common.{
  ℕ, ◌+◌, Bool, true, false, not, ◌&&◌, ◌||◌, Option, none, some, or_default, List, [], ◌∷◌, ◌++◌,
  Text, text, has, filter, length, ltb, leb, ◌==◌, if◌then◌else◌,
}
use review_agent.Core.Review.{
  Severity, severity_rank, Confidence, high, medium, low, Category, bug, security, performance,
  maintainability, style, docs, test, InlineComment,
}

-- the index in `CONFIDENCES`
abbrev pub confidence_index : Confidence → ℕ
confidence_index high = 0
confidence_index medium = 1
confidence_index low = 2

unfoldable pub meets_confidence : Option Confidence → Confidence → Bool
meets_confidence declared floor =
    leb (confidence_index (or_default declared high)) (confidence_index floor)

abbrev pub category_index : Category → ℕ
category_index bug = 0
category_index security = 1
category_index performance = 2
category_index maintainability = 3
category_index style = 4
category_index docs = 5
category_index test = 6

pub record RulesetEntry : Type 0 where
  pub enabled : Bool
  pub min_severity : Severity

-- the object's keys with their values
abbrev pub Ruleset : Type 0
Ruleset = List (Category × RulesetEntry)

-- `ruleset[category]`
unfoldable pub entry_for : Ruleset → Category → Option RulesetEntry
entry_for [] c = none
entry_for ((k, v) ∷ rules) c =
    if category_index k == category_index c then some v else entry_for rules c

-- `DEFAULT_RULESET_CATEGORY`
abbrev pub effective_category : InlineComment → Category
effective_category c = or_default c.category bug

-- the fate of one comment in the loop
abbrev pub passes_entry : Option RulesetEntry → InlineComment → Bool
passes_entry none c = true
passes_entry (some entry) c =
    entry.enabled && not (ltb (severity_rank c.severity) (severity_rank entry.min_severity))

abbrev pub passes_ruleset : Ruleset → InlineComment → Bool
passes_ruleset rules c = passes_entry (entry_for rules (effective_category c)) c

pub record RulesetResult : Type 0 where
  pub kept : List InlineComment
  pub dropped : ℕ

ruleset_loop : Ruleset → RulesetResult → List InlineComment → RulesetResult
ruleset_loop rules r [] = r
ruleset_loop rules r (c ∷ comments) =
    ruleset_loop rules
      (if passes_ruleset rules c
        then record r { kept = r.kept ++ (c ∷ []) }
        else record r { dropped = r.dropped + 1 })
      comments

unfoldable pub apply_ruleset_filter : List InlineComment → Option Ruleset → RulesetResult
unfolding ruleset_loop entry_for
apply_ruleset_filter comments none = record { kept = comments; dropped = 0 }
apply_ruleset_filter comments (some []) = record { kept = comments; dropped = 0 }
apply_ruleset_filter comments (some (e ∷ rules)) =
    ruleset_loop (e ∷ rules) (record { kept = []; dropped = 0 }) comments

-- the filter of `afterSuppression`, and its counter
unfoldable pub suppress : List Text → List InlineComment → List InlineComment
suppress suppressed = filter (λ c. not (has suppressed c.fingerprint))

unfoldable pub suppressed_count : List Text → List InlineComment → ℕ
suppressed_count suppressed comments = length (filter (λ c. has suppressed c.fingerprint) comments)

abbrev pub is_hex : ℕ → Bool
is_hex c = leb b'0' c && leb c b'9' || leb b'a' c && leb c b'f'

abbrev push : ℕ → Option Text → Option Text
push c none = none
push c (some t) = some (c ∷ t)

-- `[0-9a-f]*\]`: the digits before the first other character, which must be the bracket
digits_to_bracket : Text → Option Text
digits_to_bracket [] = none
digits_to_bracket (c ∷ t) =
    let more = push c (digits_to_bracket t) in
    if is_hex c then more else if c == b']' then some [] else none

after_prefix : Text → Text → Option Text
after_prefix [] t = some t
after_prefix (c ∷ p) [] = none
after_prefix (c ∷ p) (d ∷ t) = if c == d then after_prefix p t else none

abbrev non_empty : Option Text → Option Text
non_empty (some (c ∷ t)) = some (c ∷ t)
non_empty _ = none

abbrev captured : Option Text → Option Text
captured none = none
captured (some t) = non_empty (digits_to_bracket t)

-- `/^\[fp:([0-9a-f]+)\]/`
unfoldable pub extract_fingerprint : Text → Option Text
unfolding digits_to_bracket after_prefix
extract_fingerprint fact_text = captured (after_prefix (text "[fp:") fact_text)
