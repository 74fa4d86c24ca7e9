-- ===== src/Runner/Agent/Filters/Tests.antt =====
-- A ruleset that drops the style findings and the minor bugs.
use review_agent.Common.{◌≡◌, refl, true, false, Option, none, some, List, [], ◌∷◌, text}
use review_agent.Core.Review.{Severity, minor, right, Category, bug, style, InlineComment}
use review_agent.Runner.Agent.Filters.{Ruleset, apply_ruleset_filter, extract_fingerprint}

abbrev finding : Severity → Option Category → InlineComment
finding severity category = record {
  path = text "a.ts";
  line = 3;
  side = right;
  body = text "b";
  fingerprint = text "f";
  severity = severity;
  category = category;
  confidence = none;
  rule_id = none;
  suggestion = none;
}

abbrev rules : Ruleset
rules =
    (bug, record { enabled = true; min_severity = Severity.major })
    ∷ (style, record { enabled = false; min_severity = minor })
    ∷ []

abbrev found : List InlineComment
found = finding Severity.major none ∷ finding minor none ∷ finding Severity.major (some style) ∷ []

one_kept :
    apply_ruleset_filter found (some rules)
    ≡ record { kept = finding Severity.major none ∷ []; dropped = 2 }
unfolding apply_ruleset_filter
one_kept = refl

tagged : extract_fingerprint (text "[fp:0a9f] not a bug") ≡ some (text "0a9f")
unfolding extract_fingerprint
tagged = refl

untagged : extract_fingerprint (text "[fp:] not a bug") ≡ none
unfolding extract_fingerprint
untagged = refl
