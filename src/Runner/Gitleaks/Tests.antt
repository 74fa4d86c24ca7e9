-- ===== src/Runner/Gitleaks/Tests.antt =====
-- Decisions on findings, and redaction.
use review_agent.Common.{◌≡◌, refl, List, [], ◌∷◌, text, text_eq}
use review_agent.Runner.Gitleaks.{GitleaksFinding, apply_redactions, unique_rule_ids}

abbrev token : GitleaksFinding
token = record { rule_id = text "token"; secret = text "abc"; tags = text "low" ∷ [] }

abbrev findings : List GitleaksFinding
findings = token ∷ token ∷ []

two_redacted :
    apply_redactions (text "x=abc,abcabc.") findings
    ≡ text "x=[REDACTED:token],[REDACTED:token][REDACTED:token]."
unfolding apply_redactions
two_redacted = refl

once : unique_rule_ids findings ≡ text "token" ∷ []
unfolding unique_rule_ids text_eq
once = refl
