-- ===== src/Runner/FeedbackWriter/Rules.antt =====
-- When a suppression rule is asked for.
use review_agent.Common.{
  ℕ, ◌+◌, ◌≤◌, ◌<◌, ◌≡◌, ◌⊎◌, inl, inr, refl, Bool, true, false, Bool-cases, Option, none, some,
  List, [], ◌∷◌, ◌++◌, Text, Result, ok, err, ltb, if◌then◌else◌, arith,
}
use review_agent.Runner.Types.{FactType, rejected_finding}
use review_agent.Runner.FeedbackWriter.{
  FeedbackEvent, SuppressionOpts, FeedbackWriterOptions, WriterState, max_of, is_full, is_rejected,
  feedback_kind_to_fact_type, has_rule, rule_for, announced, with_rules, with_count,
  maybe_create_suppression_rule, input_of, checked, written, record_event,
}

-- Why a rule is asked for: the job is within its limit, the event rejects a finding, the history took it, the rejections of its
-- fingerprint have reached the threshold, and no active rule names it.
pub record IsDue (opts : FeedbackWriterOptions) (e : FeedbackEvent) (s : WriterState)
    (so : SuppressionOpts) (n : ℕ) (facts : List Text) : Type 0 where
  pub within : is_full (max_of opts.max_writes_per_job) s.count ≡ false
  pub wired : opts.suppression_opts ≡ some so
  pub rejects : feedback_kind_to_fact_type e.kind ≡ rejected_finding
  pub stored : opts.writer (input_of opts e) ≡ ok tt
  pub counted :
      so.rejection_counter
        (s.asked ++ (input_of opts e ∷ []))
        e.installation_id
        e.repo
        e.fingerprint
      ≡ ok n
  pub reached : so.suppress_after ≤ n
  pub loaded :
      so.suppression_loader (s.asked ++ (input_of opts e ∷ [])) e.installation_id e.repo ≡ ok facts
  pub unruled : has_rule e facts ≡ false

-- Why none is asked for, once the history took a rejection and rules are wired: the store fails, the
-- threshold is not reached, or an active rule names the fingerprint.
pub data IsSpared (e : FeedbackEvent) (so : SuppressionOpts) (s : WriterState) : Type 0 where
  uncounted :
      (x : Text)
      → so.rejection_counter s.asked e.installation_id e.repo e.fingerprint ≡ err x
      → IsSpared e so s
  below :
      (n : ℕ)
      → so.rejection_counter s.asked e.installation_id e.repo e.fingerprint ≡ ok n
      → n < so.suppress_after
      → IsSpared e so s
  unloaded :
      (x : Text) → so.suppression_loader s.asked e.installation_id e.repo ≡ err x → IsSpared e so s
  named :
      (facts : List Text)
      → so.suppression_loader s.asked e.installation_id e.repo ≡ ok facts
      → has_rule e facts ≡ true
      → IsSpared e so s

announced-rules :
    (e : FeedbackEvent) (r : Result Text (Unit {0})) (t : WriterState)
    → (announced e r t).rules ≡ t.rules
announced-rules e (ok u) t = refl
announced-rules e (err x) t = refl

module _ (e : FeedbackEvent) (so : SuppressionOpts) (s : WriterState) where
  abbrev Adds : ℕ → WriterState → Type 0
  Adds n t = t.rules ≡ s.rules ++ (rule_for e so n ∷ [])

  abbrev load : Result Text (List Text)
  load = so.suppression_loader s.asked e.installation_id e.repo

  with_rules-Adds :
      (n : ℕ) (facts : List Text)
      → has_rule e facts ≡ false
      → Adds n (with_rules e so s n (ok facts))
  with_rules-Adds n facts h = rw h (
      announced-rules e (so.suppression_writer (rule_for e so n))
        (record s { rules = s.rules ++ (rule_for e so n ∷ []) }))

  with_rules-cases :
      (n : ℕ) (r : Result Text (List Text))
      → load ≡ r
      → (((with_rules e so s n r).rules ≡ s.rules) × IsSpared e so s)
        ⊎ ((facts : List Text) × (r ≡ ok facts)
            × (has_rule e facts ≡ false)
            × Adds n (with_rules e so s n r))
  with_rules-cases n (err x) l = inl (refl, unloaded x l)
  with_rules-cases n (ok facts) l = elim (Bool-cases (has_rule e facts)) [
    | inl h ↦ inl (rw h refl, named facts l h)
    | inr h ↦ inr (facts, refl, h, with_rules-Adds n facts h)
  ]

  with_count-cases :
      (r : Result Text ℕ)
      → so.rejection_counter s.asked e.installation_id e.repo e.fingerprint ≡ r
      → (((with_count e so s r).rules ≡ s.rules) × IsSpared e so s)
        ⊎ ((n : ℕ) × (facts : List Text) × (r ≡ ok n)
            × (so.suppress_after ≤ n)
            × (load ≡ ok facts)
            × (has_rule e facts ≡ false)
            × Adds n (with_count e so s r))
  with_count-cases (err x) c = inl (refl, uncounted x c)
  with_count-cases (ok n) c = elim (Bool-cases (ltb n so.suppress_after)) [
    | inl h ↦ inl (rw h refl, below n c (ground arith))
    | inr h ↦ elim (with_rules-cases n load refl) [
      | inl (p, q) ↦ inl (rw h p, q)
      | inr (facts, p, q, a) ↦ inr (n, facts, refl, ground arith, p, q, rw h a)
    ]
  ]

module _ (opts : FeedbackWriterOptions) (e : FeedbackEvent) (s : WriterState) where
  abbrev pub asked_once : WriterState
  asked_once = record s { count = s.count + 1; asked = s.asked ++ (input_of opts e ∷ []) }

  -- the rule that is asked for, and that it is due
  abbrev pub Ruled : WriterState → Type 0
  Ruled t =
      (so : SuppressionOpts) × (n : ℕ) × (facts : List Text) × IsDue opts e s so n facts
      × (t.rules ≡ s.rules ++ (rule_for e so n ∷ []))

  -- why an event asks for no rule
  pub data IsUnruled : Type 0 where
    full : is_full (max_of opts.max_writes_per_job) s.count ≡ true → IsUnruled
    untaken : (x : Text) → opts.writer (input_of opts e) ≡ err x → IsUnruled
    no_rejection : is_rejected (feedback_kind_to_fact_type e.kind) ≡ false → IsUnruled
    unwired : opts.suppression_opts ≡ none → IsUnruled
    spared :
        (so : SuppressionOpts)
        → opts.suppression_opts ≡ some so
        → IsSpared e so asked_once
        → IsUnruled

  abbrev pub Decided : WriterState → Type 0
  Decided t = ((t.rules ≡ s.rules) × IsUnruled) ⊎ Ruled t

  rejected_type : (t : FactType) → is_rejected t ≡ true → t ≡ rejected_finding
  rejected_type FactType.accepted_pattern h = cc
  rejected_type rejected_finding h = refl
  rejected_type FactType.arch_decision h = cc
  rejected_type FactType.suppression_rule h = cc

  module _ (free : is_full (max_of opts.max_writes_per_job) s.count ≡ false) where
    checked-cases :
        (b : Bool) (o : Option SuppressionOpts)
        → is_rejected (feedback_kind_to_fact_type e.kind) ≡ b
        → opts.suppression_opts ≡ o
        → opts.writer (input_of opts e) ≡ ok tt
        → Decided (checked opts e b o asked_once)
    unfolding maybe_create_suppression_rule
    checked-cases false o k w p = inl (refl, no_rejection k)
    checked-cases true none k w p = inl (refl, unwired w)
    checked-cases true (some so) k w p =
        elim (with_count-cases e so asked_once
          (so.rejection_counter asked_once.asked e.installation_id e.repo e.fingerprint) refl) [
            | inl (q, why) ↦ inl (q, spared so w why)
            | inr (n, facts, c, r, l, u, a) ↦ inr (
              so,
              n,
              facts,
              record {
                within = free;
                wired = w;
                rejects = rejected_type (feedback_kind_to_fact_type e.kind) k;
                stored = p;
                counted = c;
                reached = r;
                loaded = l;
                unruled = u;
              },
              a,
            )
          ]

    written-cases :
        (r : Result Text (Unit {0}))
        → opts.writer (input_of opts e) ≡ r
        → Decided (written opts e r asked_once).1
    written-cases (err x) p = inl (refl, untaken x p)
    written-cases (ok u) p = checked-cases _ _ refl refl p

  full_or_free :
      (b : Bool)
      → is_full (max_of opts.max_writes_per_job) s.count ≡ b
      → Decided
          (if b
            then (ok true, record s { dropped = s.dropped ++ (e ∷ []) })
            else written opts e (opts.writer (input_of opts e)) asked_once).1
  full_or_free true h = inl (refl, full h)
  full_or_free false h = written-cases h (opts.writer (input_of opts e)) refl

  -- An event either asks for exactly one suppression rule, and it is due: the job is within its
  -- limit, the event rejects a finding, the history took it, the rejections of its fingerprint, this
  -- one included in what was asked, have reached the threshold, and no active rule starts with its
  -- tag. Or it asks for none, and one of these fails, rules are not wired, or the store of the rules
  -- fails to count the rejections or to load the rules.
  pub record_event-due : Decided (record_event opts e s).1
  unfolding record_event
  record_event-due = full_or_free _ refl
