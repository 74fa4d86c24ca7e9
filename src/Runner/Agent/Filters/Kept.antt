-- ===== src/Runner/Agent/Filters/Kept.antt =====
-- The loops of the filters as list filters.
use review_agent.Common.{
  ◌+◌, ◌≡◌, refl, sym, ap, ◌∙◌, Bool, true, Option, none, some, List, [], ◌∷◌, ◌++◌, filter, length,
  append-nil, append_assoc, arith, Bool-cases, inl, inr,
}
use review_agent.Core.Review.{InlineComment}
use review_agent.Runner.Agent.Filters.{
  Ruleset, RulesetResult, entry_for, passes_ruleset, ruleset_loop, apply_ruleset_filter,
}

-- no entry for a category lets everything of it pass, so an absent ruleset is the empty one
abbrev pub passes : Option Ruleset → InlineComment → Bool
passes none c = true
passes (some rules) c = passes_ruleset rules c

module _ (rules : Ruleset) where
  kept-loop :
      (r : RulesetResult) (cs : List InlineComment)
      → (ruleset_loop rules r cs).kept ≡ r.kept ++ filter (passes_ruleset rules) cs
  unfolding ruleset_loop
  kept-loop r [] = rw append-nil
  kept-loop r (c ∷ cs) = elim (Bool-cases (passes_ruleset rules c)) [
    | inl e ↦
        rw (e, ruleset_loop)
          (kept-loop (record r { kept = r.kept ++ (c ∷ []) }) cs ∙ simp append_assoc)
    | inr e ↦ rw (e, ruleset_loop) (kept-loop (record r { dropped = r.dropped + 1 }) cs)
  ]

  dropped-loop :
      (r : RulesetResult) (cs : List InlineComment)
      → (ruleset_loop rules r cs).dropped + length (filter (passes_ruleset rules) cs)
        ≡ r.dropped + length cs
  unfolding ruleset_loop
  dropped-loop r [] = omega arith
  dropped-loop r (c ∷ cs) = elim (Bool-cases (passes_ruleset rules c)) [
    | inl e ↦
        rw (e, ruleset_loop)
          (omega (arith, dropped-loop (record r { kept = r.kept ++ (c ∷ []) }) cs))
    | inr e ↦
        rw (e, ruleset_loop) (omega (arith, dropped-loop (record r { dropped = r.dropped + 1 }) cs))
  ]

filter-true : (cs : List InlineComment) → filter (passes none) cs ≡ cs
filter-true [] = refl
filter-true (c ∷ cs) = ap (λ r. c ∷ r) (filter-true cs)

filter-empty : (cs : List InlineComment) → filter (passes (some [])) cs ≡ cs
unfolding entry_for
filter-empty [] = refl
filter-empty (c ∷ cs) = ap (λ r. c ∷ r) (filter-empty cs)

-- The ruleset filter keeps, in order, exactly the comments whose category (`bug` where there is
-- none) has no entry, or an entry that is enabled and whose floor the severity reaches; and the
-- kept and the counted dropped ones are all.
pub apply_ruleset_filter-filter :
    (cs : List InlineComment) (rules : Option Ruleset)
    → ((apply_ruleset_filter cs rules).kept ≡ filter (passes rules) cs)
      × ((apply_ruleset_filter cs rules).dropped + length (apply_ruleset_filter cs rules).kept
          ≡ length cs)
unfolding apply_ruleset_filter
apply_ruleset_filter-filter cs none = (sym (filter-true cs), omega arith)
apply_ruleset_filter-filter cs (some []) = (sym (filter-empty cs), omega arith)
apply_ruleset_filter-filter cs (some (e ∷ rules)) = (
  kept-loop (e ∷ rules) (record { kept = []; dropped = 0 }) cs,
  let start : RulesetResult = record { kept = []; dropped = 0 } in
      omega (arith, dropped-loop (e ∷ rules) start cs, ap length (kept-loop (e ∷ rules) start cs)),
)
