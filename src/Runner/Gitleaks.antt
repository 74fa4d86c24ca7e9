-- ===== src/Runner/Gitleaks.antt =====
-- packages/runner/src/gitleaks.ts: the decision on the findings of a secret scan, and redaction.
-- The scanner itself is a parameter of the review (`deps.scanContent`).
pub mod Laws
mod Tests
use review_agent.Common.{
  ℕ, zero, suc, ◌-◌, Bool, true, false, ◌||◌, Option, none, some, List, [], ◌∷◌, ◌++◌, map, Text,
  text, decimal, has, length, any, starts_with, ltb, if◌then◌else◌,
}

-- the fields that the review reads
pub record GitleaksFinding : Type 0 where
  pub rule_id : Text
  pub secret : Text
  pub tags : List Text

-- whether to stop, with what the reason is made of
pub data AbortDecision : Type 0 where
  proceed : AbortDecision
  too_many : ℕ → AbortDecision
  high_confidence : Text → AbortDecision

-- the reason of a decision, and what the caller puts where there is none
unfoldable pub reason_of : AbortDecision → Text
unfolding decimal
reason_of proceed = text "unknown"
reason_of (too_many n) = decimal n ++ text " secret findings (>3)"
reason_of (high_confidence rule) = text "high-confidence finding: " ++ rule

abbrev pub is_high : GitleaksFinding → Bool
is_high f = has f.tags (text "high")

first_high : List GitleaksFinding → AbortDecision
first_high [] = proceed
first_high (f ∷ findings) =
    let rest = first_high findings in if is_high f then high_confidence f.rule_id else rest

unfoldable pub should_abort_review : List GitleaksFinding → AbortDecision
unfolding first_high
should_abort_review findings =
    if ltb 3 (length findings) then too_many (length findings) else first_high findings

-- `t.split(secret).join(mark)` for a secret that is not empty: every occurrence is replaced, from
-- left to right; `skip` counts the characters of an occurrence that are still to be passed over
replace_from : Text → Text → ℕ → Text → Text
replace_from secret mark skip [] = []
replace_from secret mark (suc skip) (c ∷ t) = replace_from secret mark skip t
replace_from secret mark zero (c ∷ t) =
    let found = mark ++ replace_from secret mark (length secret - 1) t in
    let kept = c ∷ replace_from secret mark zero t in
    if starts_with secret (c ∷ t) then found else kept

abbrev redaction_mark : GitleaksFinding → Text
redaction_mark f = text "[REDACTED:" ++ f.rule_id ++ text "]"

redact_secret : Text → Text → Text → Text
redact_secret [] mark t = t
redact_secret (c ∷ secret) mark t = replace_from (c ∷ secret) mark zero t

unfoldable pub apply_redactions : Text → List GitleaksFinding → Text
unfolding replace_from redact_secret starts_with
apply_redactions t [] = t
apply_redactions t (f ∷ findings) =
    apply_redactions (redact_secret f.secret (redaction_mark f) t) findings

-- `uniqueRuleIds` of agent.ts, in the order of the set
unique_from : List Text → List GitleaksFinding → List Text
unique_from seen [] = seen
unique_from seen (f ∷ findings) =
    unique_from (if has seen f.rule_id then seen else seen ++ (f.rule_id ∷ [])) findings

unfoldable pub unique_rule_ids : List GitleaksFinding → List Text
unfolding unique_from has
unique_rule_ids findings = unique_from [] findings
