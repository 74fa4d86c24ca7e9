-- ===== src/Runner/Agent/Generate.antt =====
-- The call of the model in `runReviewInner`: one retry on output that the schema rejects, behind
-- the middlewares. The agent gives its cost guard the cost state alone. Its injection guard has no
-- `onSuspicion`, so it only goes on. Of the payload of a call the diff is kept, which stands at its
-- end; what stands before it, the wrapped metadata with the prefetched files, is left out.
use review_agent.Common.{◌+◌, Bool, true, false, none, List, [], ◌∷◌, ◌++◌, Text, Result, ok, err}
use review_agent.Runner.Effects.{
  RunError, schema_validation, Issue, generated, RunState, Run, ◌>>=◌, pure, raise,
}
use review_agent.Runner.CostGuard.{ReviewOutput, CostGuardOptions, cost_guard}
use review_agent.Runner.Types.{ReviewOutputComment}
use review_agent.Runner.Agent.Job.{ReviewJob, ReviewDeps}

abbrev pub Output : Type 0
Output = ReviewOutput ReviewOutputComment

-- `provider.generateReview`, whose tool calls run the counter
unfoldable pub attempt : ReviewDeps → (diff : Text) → (retry : Bool) → Run Output
attempt deps diff retry s = (
  (deps.generate diff retry).answer,
  record s {
    tool_calls = s.tool_calls + (deps.generate diff retry).tool_calls;
    log = s.log ++ (generated diff retry ∷ []);
  },
)

abbrev pub rejected_by : List Issue → Output → Run Output
rejected_by [] out = pure out
rejected_by (i ∷ issues) out = raise (schema_validation (i ∷ issues))

-- a call of the model followed by `validateOutput`
unfoldable pub validated : ReviewDeps → (diff : Text) → (retry : Bool) → Run Output
unfolding attempt
validated deps diff retry = do out ← attempt deps diff retry; rejected_by (deps.validate out) out

-- `catch`: only a schema error is handled
abbrev pub handle :
    Run Output → Result RunError Output × RunState → Result RunError Output × RunState
handle retry (err (schema_validation issues), s) = retry s
handle retry (err e, s) = (err e, s)
handle retry (ok out, s) = (ok out, s)

unfoldable pub main : ReviewDeps → (diff : Text) → Run Output
unfolding validated
main deps diff s = handle (validated deps diff true) (validated deps diff false s)

abbrev pub Middleware : Type 0
Middleware = Run Output → Run Output

unfoldable pub compose : List Middleware → Run Output → Run Output
compose [] terminal = terminal
compose (mw ∷ middlewares) terminal = mw (compose middlewares terminal)

abbrev pub injection_guard : Middleware
injection_guard next = next

abbrev pub guard_options : CostGuardOptions
guard_options = record {
  on_fallback_hint = false;
  on_threshold_crossed = false;
  daily_cap = 0;
  read_totals = none;
  recorder = none;
  record_context = none;
}

unfoldable pub generate_review : ReviewJob → ReviewDeps → (diff : Text) → Run Output
unfolding main compose cost_guard
generate_review job deps diff =
    compose (injection_guard ∷ cost_guard guard_options job.cost_cap deps.estimate_cost ∷ [])
      (main deps diff)
