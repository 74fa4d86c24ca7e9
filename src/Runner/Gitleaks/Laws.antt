-- ===== src/Runner/Gitleaks/Laws.antt =====
-- When the review goes on after a scan.
use review_agent.Common.{
  ◌≤◌, ◌≡◌, ◌↔◌, refl, false, List, [], ◌∷◌, Text, All, length, arith, Bool-cases, inl, inr, has,
  Distinct, Distinct-concat,
}
use review_agent.Runner.Gitleaks.{
  GitleaksFinding, proceed, is_high, first_high, should_abort_review, unique_rule_ids, unique_from,
}

first_high-proceed :
    (fs : List GitleaksFinding) → (first_high fs ≡ proceed) ↔ All (λ f. is_high f ≡ false) fs
unfolding first_high
first_high-proceed [] = (λ _. tt, λ _. refl)
first_high-proceed (f ∷ fs) = ground (arith, first_high-proceed fs)

-- A review goes on after a scan exactly if there are at most three findings and none of them has
-- the tag `high`.
pub should_abort_review-proceed :
    (fs : List GitleaksFinding)
    → (should_abort_review fs ≡ proceed) ↔ ((length fs ≤ 3) × All (λ f. is_high f ≡ false) fs)
unfolding should_abort_review
should_abort_review-proceed fs = ground (arith, first_high-proceed fs)

unique_from-Distinct :
    (seen : List Text) (fs : List GitleaksFinding) → Distinct seen → Distinct (unique_from seen fs)
unfolding unique_from
unique_from-Distinct seen [] h = h
unique_from-Distinct seen (f ∷ fs) h = elim (Bool-cases (has seen f.rule_id)) [
  | inl e ↦ rw (e, unique_from) (unique_from-Distinct seen fs h)
  | inr e ↦ rw (e, unique_from) (unique_from-Distinct _ fs (Distinct-concat seen f.rule_id h e))
]

-- A secret error names no rule twice.
pub unique_rule_ids-Distinct : (fs : List GitleaksFinding) → Distinct (unique_rule_ids fs)
unfolding unique_rule_ids
unique_rule_ids-Distinct fs = unique_from-Distinct [] fs tt
