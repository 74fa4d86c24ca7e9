-- ===== src/Runner/CostGuard/Tests.antt =====
-- A guard with a ledger, on a review that costs 30.
use review_agent.Common.{◌≡◌, refl, arith, true, some, [], text, ok, err}
use review_agent.Core.Cost.{decide_cost_action}
use review_agent.Runner.Effects.{RunError, RunState, Run, pure}
use review_agent.Runner.CostGuard.{ReviewOutput, CostTotals, CostGuardOptions, guarded, cost_guard}
use review_agent.Runner.CostGuard.Limits.{cost_guard-stops}

abbrev start : RunState
start = record { total_cost = 0; tool_calls = 0; log = [] }

abbrev spent_60 : CostTotals
spent_60 = record { running = 60; daily = 0 }

abbrev options : CostGuardOptions
options = record {
  on_fallback_hint = true;
  on_threshold_crossed = true;
  daily_cap = 0;
  read_totals = some (ok spent_60);
  recorder = some (λ row. ok tt);
  record_context =
      some
        (record { installation_id = 1; job_id = text "j"; provider = text "p"; model = text "m" });
}

abbrev result : ReviewOutput (Unit {0})
result = record {
  comments = [];
  summary = text "fine";
  tokens_input = 5;
  tokens_output = 6;
  cost = 30;
  tool_calls = some 0;
}

returned : (cost_guard options 100 (ok 10) (pure result) start).0 ≡ ok result
unfolding cost_guard guarded decide_cost_action
returned = refl

cost_guard-stops_example :
    (x : RunError) × (s' : RunState) × ((next : Run (ReviewOutput (Unit {0})))
      → cost_guard options 100 (ok 50) next start ≡ (err x, s'))
unfolding decide_cost_action
cost_guard-stops_example =
    cost_guard-stops options 100 (ok 50) 50 spent_60 start refl refl (omega arith)
