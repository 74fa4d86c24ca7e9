-- ===== src/Core/Cost.antt =====
-- packages/core/src/cost.ts. Amounts are natural numbers of a fixed small unit, so that the ratios
-- 0.8 and 1.5 are compared exactly: `a > b * 1.5` is `3 * b < 2 * a`. A cap that is not positive
-- is 0.
pub mod Decisions
mod Tests
use review_agent.Common.{ℕ, ◌+◌, ◌*◌, Bool, ◌&&◌, Text, ltb, leb, ◌==◌, if◌then◌else◌}

pub data AbortReason : Type 0 where
  cost_exceeded daily_cap : AbortReason

pub data CostGuardDecision : Type 0 where
  proceed fallback : CostGuardDecision
  abort : AbortReason → (running cap : ℕ) → CostGuardDecision
  kill : (running cap : ℕ) → CostGuardDecision

pub record DecideCostInput : Type 0 where
  pub running : ℕ
  pub estimate : ℕ
  pub per_pr_cap : ℕ
  pub daily : ℕ
  pub daily_cap : ℕ

abbrev pub projected : DecideCostInput → ℕ
projected i = i.running + i.estimate

abbrev pub daily_spent : DecideCostInput → Bool
daily_spent i = ltb 0 i.daily_cap && leb i.daily_cap i.daily

unfoldable pub decide_cost_action : DecideCostInput → CostGuardDecision
decide_cost_action i =
    if daily_spent i
    then abort daily_cap i.daily i.daily_cap
    else if i.per_pr_cap == 0
    then proceed
    else if ltb (3 * i.per_pr_cap) (2 * i.running)
    then kill i.running i.per_pr_cap
    else if ltb i.per_pr_cap (projected i)
    then abort cost_exceeded (projected i) i.per_pr_cap
    else if ltb (4 * i.per_pr_cap) (5 * projected i)
    then fallback
    else proceed

pub data CostLedgerStatus : Type 0 where
  success failed cancelled cost_exceeded : CostLedgerStatus

-- a row of the cost ledger, less the two cache counters and the latency that the guard leaves out
pub record RecordPhaseInput : Type 0 where
  pub installation_id : ℕ
  pub job_id : Text
  pub provider : Text
  pub model : Text
  pub input_tokens : ℕ
  pub output_tokens : ℕ
  pub cost : ℕ
  pub status : CostLedgerStatus
