-- ===== src/Core/Cost/Tests.antt =====
-- Decisions on amounts.
use review_agent.Common.{ℕ, ◌≡◌, refl}
use review_agent.Core.Cost.{AbortReason, fallback, abort, kill, DecideCostInput, decide_cost_action}

abbrev spending : ℕ → ℕ → DecideCostInput
spending running estimate = record {
  running = running;
  estimate = estimate;
  per_pr_cap = 100;
  daily = 0;
  daily_cap = 0;
}

at_the_cap : decide_cost_action (spending 60 40) ≡ fallback
unfolding decide_cost_action
at_the_cap = refl

over_the_cap : decide_cost_action (spending 60 41) ≡ abort AbortReason.cost_exceeded 101 100
unfolding decide_cost_action
over_the_cap = refl

far_over : decide_cost_action (spending 151 0) ≡ kill 151 100
unfolding decide_cost_action
far_over = refl
