-- ===== src/Runner/CostGuard.antt =====
-- packages/runner/src/middleware/cost-guard.ts. Each callback and each call of the ledger is an
-- effect; an optional callback that is absent has none.
pub mod Limits
mod Tests
use review_agent.Common.{
  ℕ, ◌+◌, ◌*◌, Bool, true, false, not, ◌&&◌, Option, none, some, List, Text, Result, ok, err, ltb,
  ◌==◌, if◌then◌else◌,
}
use review_agent.Core.Review.{InlineComment}
use review_agent.Core.Cost.{
  AbortReason, CostGuardDecision, DecideCostInput, decide_cost_action, RecordPhaseInput, success,
  CostLedgerStatus,
}
use review_agent.Runner.Effects.{
  RunError, CostThreshold, CostThresholdEvent, Effect, estimated, totals_read, fallback_hint,
  threshold_crossed, recorded, RunState, Run, continue, ◌>>=◌, ◌>>◌, pure, raise, call, emit,
  set_total,
}

-- packages/llm/src/types.ts: what the model returns
pub record ReviewOutput (Comment : Type 0) : Type 0 where
  pub comments : List Comment
  pub summary : Text
  pub tokens_input : ℕ
  pub tokens_output : ℕ
  pub cost : ℕ
  pub tool_calls : Option ℕ

pub record CostTotals : Type 0 where
  pub running : ℕ
  pub daily : ℕ

pub record CostGuardRecordContext : Type 0 where
  pub installation_id : ℕ
  pub job_id : Text
  pub provider : Text
  pub model : Text

-- The answers of `readTotals` and of the recorder stand for the functions.
pub record CostGuardOptions : Type 0 where
  pub on_fallback_hint : Bool
  pub on_threshold_crossed : Bool
  pub daily_cap : ℕ
  pub read_totals : Option (Result RunError CostTotals)
  pub recorder : Option (RecordPhaseInput → Result RunError (Unit {0}))
  pub record_context : Option CostGuardRecordContext

unfoldable pub to_threshold_event : CostGuardDecision → CostThresholdEvent
to_threshold_event (CostGuardDecision.kill running cap) = record {
  threshold = CostThreshold.kill;
  cumulative = running;
  cap = cap;
}
to_threshold_event (CostGuardDecision.abort AbortReason.daily_cap running cap) = record {
  threshold = CostThreshold.daily_cap;
  cumulative = running;
  cap = cap;
}
to_threshold_event (CostGuardDecision.abort AbortReason.cost_exceeded running cap) = record {
  threshold = CostThreshold.abort;
  cumulative = running;
  cap = cap;
}
to_threshold_event _ = record { threshold = CostThreshold.fallback; cumulative = 0; cap = 0 }

abbrev pub when : Bool → Effect → Run (Unit {0})
when true e = emit e
when false e = pure tt

abbrev pub write :
    Option (RecordPhaseInput → Result RunError (Unit {0}))
    → Option CostGuardRecordContext
    → (CostGuardRecordContext → RecordPhaseInput)
    → Run (Unit {0})
write none _ row = pure tt
write (some recorder) none row = pure tt
write (some recorder) (some ctx) row = call (recorded (row ctx)) (recorder (row ctx))

abbrev pub exceeded_row : ℕ → CostGuardRecordContext → RecordPhaseInput
exceeded_row estimate ctx = record {
  installation_id = ctx.installation_id;
  job_id = ctx.job_id;
  provider = ctx.provider;
  model = ctx.model;
  input_tokens = 0;
  output_tokens = 0;
  cost = estimate;
  status = CostLedgerStatus.cost_exceeded;
}

unfoldable pub record_exceeded : CostGuardOptions → ℕ → Run (Unit {0})
record_exceeded o estimate = write o.recorder o.record_context (exceeded_row estimate)

abbrev pub success_row : {C : Type 0} → ReviewOutput C → CostGuardRecordContext → RecordPhaseInput
success_row result ctx = record {
  installation_id = ctx.installation_id;
  job_id = ctx.job_id;
  provider = ctx.provider;
  model = ctx.model;
  input_tokens = result.tokens_input;
  output_tokens = result.tokens_output;
  cost = result.cost;
  status = success;
}

abbrev pub refuse :
    {A : Type 0} → CostGuardOptions → CostThresholdEvent → (estimate cap running : ℕ) → Run A
refuse o event estimate cap running = do
  when o.on_threshold_crossed (threshold_crossed event)
  record_exceeded o estimate
  raise (RunError.cost_exceeded cap running)

-- what the guard does before the call, for its decision
abbrev pub before : CostGuardOptions → ℕ → CostGuardDecision → Run (Unit {0})
before o estimate CostGuardDecision.proceed = pure tt
before o estimate CostGuardDecision.fallback = do
  when o.on_fallback_hint fallback_hint
  when o.on_threshold_crossed (threshold_crossed (to_threshold_event CostGuardDecision.fallback))
before o estimate (CostGuardDecision.abort reason running cap) =
    refuse o (to_threshold_event (CostGuardDecision.abort reason running cap)) estimate cap running
before o estimate (CostGuardDecision.kill running cap) =
    refuse o (to_threshold_event (CostGuardDecision.kill running cap)) estimate cap running

abbrev pub overrun : ℕ → ℕ → CostThresholdEvent
overrun cap total = record {
  threshold = if ltb (3 * cap) (2 * total) then CostThreshold.kill else CostThreshold.abort;
  cumulative = total;
  cap = cap;
}

abbrev pub has_recorder : Option (RecordPhaseInput → Result RunError (Unit {0})) → Bool
has_recorder none = false
has_recorder (some recorder) = true

abbrev pub totals : CostGuardOptions → Option (Result RunError CostTotals) → Run CostTotals
totals o none s = (ok (record { running = s.total_cost; daily = 0 }), s)
totals o (some answer) s = call totals_read answer s

abbrev pub decision : CostGuardOptions → (cap estimate : ℕ) → CostTotals → CostGuardDecision
decision o cap estimate t = decide_cost_action (record {
  running = t.running;
  estimate = estimate;
  per_pr_cap = cap;
  daily = t.daily;
  daily_cap = o.daily_cap;
})

module _ {C : Type 0} (o : CostGuardOptions) (cap : ℕ) (estimate_cost : Result RunError ℕ) where
  -- what the guard does with the result of the call
  unfoldable pub settle : CostTotals → ReviewOutput C → Run (ReviewOutput C)
  unfolding record_exceeded
  settle t result = do
    set_total (t.running + result.cost)
    write o.recorder o.record_context (success_row result)
    if ltb 0 cap && ltb cap (t.running + result.cost)
        then refuse o (overrun cap (t.running + result.cost)) 0 cap (t.running + result.cost)
        else pure result

  unfoldable pub guarded : Run (ReviewOutput C) → Run (ReviewOutput C)
  unfolding settle record_exceeded to_threshold_event
  guarded next = do
    estimate ← call estimated estimate_cost
    t ← totals o o.read_totals
    before o estimate (decision o cap estimate t)
    result ← next
    settle t result

  unfoldable pub cost_guard : Run (ReviewOutput C) → Run (ReviewOutput C)
  cost_guard next =
      if cap == 0 && (o.daily_cap == 0 && not (has_recorder o.recorder)) then next else guarded next
