-- ===== src/Runner/FeedbackWriter.antt =====
-- packages/runner/src/feedback-writer.ts, with the types of packages/core/src/feedback.ts. The scan
-- of a text for secrets is a parameter, with the operator's patterns already in it; so are the
-- history, which may throw, and the answers of the suppression store, which may depend on what was
-- asked of the history so far. The counter of the closure and the calls are the state.
pub mod Limit
pub mod Rules
pub mod Learned
mod Tests
use review_agent.Common.{
  ℕ, ◌+◌, Bool, true, false, Option, none, some, List, [], ◌∷◌, ◌++◌, any, Text, text, decimal,
  starts_with, Result, ok, err, leb, ltb, if◌then◌else◌,
}
use review_agent.Runner.Types.{FactType, accepted_pattern, rejected_finding, FactRow}
use review_agent.Runner.Gitleaks.{GitleaksFinding, apply_redactions}

pub data FeedbackKind : Type 0 where
  thumbs_up thumbs_down dismissed : FeedbackKind

pub record FeedbackEvent : Type 0 where
  pub installation_id : ℕ
  pub repo : Text
  pub fingerprint : Text
  pub kind : FeedbackKind
  pub fact_text : Text

unfoldable pub feedback_kind_to_fact_type : FeedbackKind → FactType
feedback_kind_to_fact_type thumbs_up = accepted_pattern
feedback_kind_to_fact_type _ = rejected_finding

-- what the history is asked to store
pub record HistoryInput : Type 0 where
  pub installation_id : ℕ
  pub repo : Text
  pub fact : FactRow

pub record SuppressionInput : Type 0 where
  pub installation_id : ℕ
  pub repo : Text
  pub fingerprint : Text
  pub reason : Text

pub record SuppressionOpts : Type 0 where
  pub suppress_after : ℕ
  pub rejection_counter : List HistoryInput → ℕ → Text → Text → Result Text ℕ
  pub suppression_loader : List HistoryInput → ℕ → Text → Result Text (List Text)
  pub suppression_writer : SuppressionInput → Result Text (Unit {0})

pub data MaxWrites : Type 0 where
  limited : ℕ → MaxWrites
  unlimited : MaxWrites

pub record FeedbackWriterOptions : Type 0 where
  pub writer : HistoryInput → Result Text (Unit {0})
  pub quick_scan : Text → List GitleaksFinding
  pub max_writes_per_job : Option MaxWrites
  pub suppression_opts : Option SuppressionOpts

-- `count`, then the calls of the history, of the rate-limit hook, of the suppression writer and of
-- the hook on a created rule
pub record WriterState : Type 0 where
  pub count : ℕ
  pub asked : List HistoryInput
  pub dropped : List FeedbackEvent
  pub rules : List SuppressionInput
  pub created : List Text

abbrev pub default_max_writes_per_job : ℕ
default_max_writes_per_job = 10

abbrev pub max_of : Option MaxWrites → MaxWrites
max_of none = limited default_max_writes_per_job
max_of (some m) = m

abbrev pub is_full : MaxWrites → ℕ → Bool
is_full unlimited count = false
is_full (limited max) count = leb max count

unfoldable pub redacted : List GitleaksFinding → Text → Text
redacted [] t = t
redacted (f ∷ findings) t = apply_redactions t (f ∷ findings)

abbrev pub fp_tag : Text → Text
fp_tag fp = text "[fp:" ++ (fp ++ (b']' ∷ []))

abbrev pub is_rejected : FactType → Bool
is_rejected rejected_finding = true
is_rejected _ = false

abbrev pub rule_for : FeedbackEvent → SuppressionOpts → ℕ → SuppressionInput
rule_for e so count = record {
  installation_id = e.installation_id;
  repo = e.repo;
  fingerprint = e.fingerprint;
  reason =
      text "Auto-suppressed after "
      ++ (decimal count
          ++ (text " rejection(s) (threshold: " ++ (decimal so.suppress_after ++ text ")")));
}

abbrev pub has_rule : FeedbackEvent → List Text → Bool
has_rule e facts = any (λ t. starts_with (fp_tag e.fingerprint) t) facts

-- what the writer or the hook throws is taken by the `catch`
abbrev pub announced : FeedbackEvent → Result Text (Unit {0}) → WriterState → WriterState
announced e (err x) s = s
announced e (ok u) s = record s { created = s.created ++ (e.repo ∷ []) }

module _ (e : FeedbackEvent) (so : SuppressionOpts) (s : WriterState) where
  abbrev pub with_rules : ℕ → Result Text (List Text) → WriterState
  with_rules count (err x) = s
  with_rules count (ok facts) =
      if has_rule e facts
      then s
      else announced e (so.suppression_writer (rule_for e so count))
          (record s { rules = s.rules ++ (rule_for e so count ∷ []) })

  abbrev pub with_count : Result Text ℕ → WriterState
  with_count (err x) = s
  with_count (ok count) =
      if ltb count so.suppress_after
      then s
      else with_rules count (so.suppression_loader s.asked e.installation_id e.repo)

  unfoldable pub maybe_create_suppression_rule : WriterState
  unfolding starts_with
  maybe_create_suppression_rule =
      with_count (so.rejection_counter s.asked e.installation_id e.repo e.fingerprint)

module _ (opts : FeedbackWriterOptions) where
  abbrev pub input_of : FeedbackEvent → HistoryInput
  input_of e = record {
    installation_id = e.installation_id;
    repo = e.repo;
    fact = record {
      fact_type = feedback_kind_to_fact_type e.kind;
      fact_text =
          fp_tag e.fingerprint ++ (b' ' ∷ redacted (opts.quick_scan e.fact_text) e.fact_text);
    };
  }

  abbrev pub checked : FeedbackEvent → Bool → Option SuppressionOpts → WriterState → WriterState
  checked e true (some so) s = maybe_create_suppression_rule e so s
  checked e _ _ s = s

  -- after the call of the history: a throw goes to the caller
  abbrev pub written :
      FeedbackEvent → Result Text (Unit {0}) → WriterState → Result Text Bool × WriterState
  written e (err x) s = (err x, s)
  written e (ok u) s = (
    ok false,
    checked e (is_rejected (feedback_kind_to_fact_type e.kind)) opts.suppression_opts s,
  )

  -- whether the event was dropped, and the state
  unfoldable pub record_event : FeedbackEvent → WriterState → Result Text Bool × WriterState
  unfolding feedback_kind_to_fact_type redacted
  record_event e s =
      if is_full (max_of opts.max_writes_per_job) s.count
      then (ok true, record s { dropped = s.dropped ++ (e ∷ []) })
      else written e (opts.writer (input_of e))
          (record s { count = s.count + 1; asked = s.asked ++ (input_of e ∷ []) })

  -- the events of one job, one after another, whether or not one of them throws
  unfoldable pub record_all : List FeedbackEvent → WriterState → WriterState
  record_all [] s = s
  record_all (e ∷ events) s = record_all events (record_event e s).1
