-- ===== src/Runner/FeedbackWriter/Limit.antt =====
-- The rate limit of one job.
use review_agent.Common.{
  ℕ, zero, suc, ◌+◌, ◌-◌, ◌≤◌, ◌<◌, ◌≡◌, refl, sym, ap, ◌∙◌, Bool, true, false, Bool-cases, Option,
  none, some, inl, inr, List, [], ◌∷◌, ◌++◌, append-nil, append_assoc, map, take, drop, Text,
  Result, ok, err, ltb, arith,
}
use review_agent.Runner.FeedbackWriter.{
  FeedbackEvent, SuppressionOpts, limited, unlimited, FeedbackWriterOptions, WriterState, max_of,
  is_full, is_rejected, feedback_kind_to_fact_type, has_rule, rule_for, announced, with_rules,
  with_count, maybe_create_suppression_rule, input_of, checked, written, record_event, record_all,
}

-- the same counter, the same calls of the history, the same dropped events
pub record IsAlike (s t : WriterState) : Type 0 where
  pub count : t.count ≡ s.count
  pub asked : t.asked ≡ s.asked
  pub dropped : t.dropped ≡ s.dropped

alike : (s : WriterState) → IsAlike s s
alike s = record { count = refl; asked = refl; dropped = refl }

module _ (e : FeedbackEvent) (so : SuppressionOpts) (s : WriterState) where
  announced-IsAlike :
      (t : WriterState) → IsAlike s t → (r : Result Text (Unit {0})) → IsAlike s (announced e r t)
  announced-IsAlike t h (ok u) = record { count = h.count; asked = h.asked; dropped = h.dropped }
  announced-IsAlike t h (err x) = h

  with_rules-IsAlike : (n : ℕ) (r : Result Text (List Text)) → IsAlike s (with_rules e so s n r)
  with_rules-IsAlike n (err x) = alike s
  with_rules-IsAlike n (ok facts) = elim (Bool-cases (has_rule e facts)) [
    | inl h ↦ rw h (alike s)
    | inr h ↦ rw h (
        announced-IsAlike (record s { rules = s.rules ++ (rule_for e so n ∷ []) })
          (record { count = refl; asked = refl; dropped = refl })
          (so.suppression_writer (rule_for e so n)))
  ]

  with_count-IsAlike : (r : Result Text ℕ) → IsAlike s (with_count e so s r)
  with_count-IsAlike (err x) = alike s
  with_count-IsAlike (ok n) = elim (Bool-cases (ltb n so.suppress_after)) [
    | inl h ↦ rw h (alike s)
    | inr h ↦ rw h (with_rules-IsAlike n (so.suppression_loader s.asked e.installation_id e.repo))
  ]

  pub maybe_create_suppression_rule-IsAlike : IsAlike s (maybe_create_suppression_rule e so s)
  unfolding maybe_create_suppression_rule
  maybe_create_suppression_rule-IsAlike =
      with_count-IsAlike (so.rejection_counter s.asked e.installation_id e.repo e.fingerprint)

module _ (opts : FeedbackWriterOptions) where
  checked-IsAlike :
      (e : FeedbackEvent) (b : Bool) (o : Option SuppressionOpts) (s : WriterState)
      → IsAlike s (checked opts e b o s)
  checked-IsAlike e true (some so) s = maybe_create_suppression_rule-IsAlike e so s
  checked-IsAlike e true none s = alike s
  checked-IsAlike e false o s = alike s

  written-IsAlike :
      (e : FeedbackEvent) (r : Result Text (Unit {0})) (s : WriterState)
      → IsAlike s (written opts e r s).1
  written-IsAlike e (ok u) s =
      checked-IsAlike e (is_rejected (feedback_kind_to_fact_type e.kind)) opts.suppression_opts s
  written-IsAlike e (err x) s = alike s

  abbrev full : WriterState → Bool
  full s = is_full (max_of opts.max_writes_per_job) s.count

  pub record_event-full :
      (e : FeedbackEvent) (s : WriterState)
      → full s ≡ true
      → (record_event opts e s).1 ≡ record s { dropped = s.dropped ++ (e ∷ []) }
  unfolding record_event
  record_event-full e s h = rw h refl

  pub record_event-free :
      (e : FeedbackEvent) (s : WriterState)
      → full s ≡ false
      → IsAlike
          (record s { count = s.count + 1; asked = s.asked ++ (input_of opts e ∷ []) })
          (record_event opts e s).1
  unfolding record_event
  record_event-free e s h = rw h (
      written-IsAlike e (opts.writer (input_of opts e))
        (record s { count = s.count + 1; asked = s.asked ++ (input_of opts e ∷ []) }))

  -- the calls of the history and the dropped events of a job
  pub record Split (asked : List FeedbackEvent) (dropped : List FeedbackEvent) (s t : WriterState)
      : Type 0 where
    pub calls : t.asked ≡ s.asked ++ map (input_of opts) asked
    pub drops : t.dropped ≡ s.dropped ++ dropped

  step_drops :
      (e : FeedbackEvent) (events : List FeedbackEvent) (s t u : WriterState)
      → t ≡ record s { dropped = s.dropped ++ (e ∷ []) }
      → Split [] events t u
      → Split [] (e ∷ events) s u
  step_drops e events s t u p h = record {
    calls = h.calls ∙ ap (λ x. x.asked ++ []) p;
    drops = h.drops ∙ (ap (λ x. x.dropped ++ events) p ∙ append_assoc s.dropped (e ∷ []) events);
  }

  step_calls :
      (e : FeedbackEvent) (asked dropped : List FeedbackEvent) (s t u : WriterState)
      → IsAlike (record s { count = s.count + 1; asked = s.asked ++ (input_of opts e ∷ []) }) t
      → Split asked dropped t u
      → Split (e ∷ asked) dropped s u
  step_calls e asked dropped s t u a h = record {
    calls =
        h.calls
        ∙ (ap (λ x. x ++ map (input_of opts) asked) a.asked
            ∙ append_assoc s.asked (input_of opts e ∷ []) (map (input_of opts) asked));
    drops = h.drops ∙ ap (λ x. x ++ dropped) a.dropped;
  }

  unchanged : (s : WriterState) → Split [] [] s s
  unchanged s = record { calls = sym (append-nil s.asked); drops = sym (append-nil s.dropped) }

  module _ (n : ℕ) (max : max_of opts.max_writes_per_job ≡ limited n) where
    full_at : (s : WriterState) → n ≤ s.count → full s ≡ true
    full_at s h = rw max (ground arith)

    free_at : (s : WriterState) → s.count < n → full s ≡ false
    free_at s h = rw max (ground arith)

    record_all-full :
        (events : List FeedbackEvent) (s : WriterState)
        → n ≤ s.count
        → Split [] events s (record_all opts events s)
    unfolding record_all
    record_all-full [] s h = unchanged s
    record_all-full (e ∷ events) s h =
        let p = record_event-full e s (full_at s h) in
        step_drops e events s (record_event opts e s).1 _ p
          (record_all-full events (record_event opts e s).1 (rw (ap (λ x. x.count) p) h))

    record_all-room :
        (m : ℕ) (events : List FeedbackEvent) (s : WriterState)
        → s.count + m ≡ n
        → Split (take m events) (drop m events) s (record_all opts events s)
    unfolding record_all
    record_all-room zero events s h = record_all-full events s (omega arith)
    record_all-room (suc m) [] s h = unchanged s
    record_all-room (suc m) (e ∷ events) s h =
        let a = record_event-free e s (free_at s (omega arith)) in
        let counted : (record_event opts e s).1.count ≡ s.count + 1 = a.count in
        step_calls e (take m events) (drop m events) s (record_event opts e s).1 _ a
          (record_all-room m events (record_event opts e s).1 (omega arith))

    -- With a limit, the history is asked to store exactly the first events of the job, as many as the
    -- limit leaves room for, in their order, and exactly the others are dropped, in their order,
    -- whatever calls throw.
    pub record_all-Split :
        (events : List FeedbackEvent) (s : WriterState)
        → s.count ≤ n
        → Split (take (n - s.count) events) (drop (n - s.count) events) s (record_all opts events s)
    record_all-Split events s h = record_all-room (n - s.count) events s (omega arith)

  -- Without a limit, nothing is dropped.
  pub record_all-unlimited :
      max_of opts.max_writes_per_job ≡ unlimited
      → (events : List FeedbackEvent) (s : WriterState)
      → Split events [] s (record_all opts events s)
  unfolding record_all
  record_all-unlimited max [] s = unchanged s
  record_all-unlimited max (e ∷ events) s =
      step_calls e events [] s (record_event opts e s).1 _ (record_event-free e s (rw max refl))
        (record_all-unlimited max events (record_event opts e s).1)
