-- ===== src/Runner/FeedbackWriter/Learned.antt =====
-- From a rejection to the next review: what was rejected once is not posted again.
use review_agent.Common.{
  ◌≡◌, ◌≢◌, refl, sym, ap, ◌∙◌, Bool, true, false, Bool-cases, Option, none, some, inl, inr, List,
  [], ◌∷◌, ◌++◌, append_assoc, has, All, All-mono, Text, text, text_eq_refl, ok, arith,
}
use mathlib.Core.Path.{subst}
use review_agent.Runner.Types.{rejected_finding, FactRow, RunnerResult}
use review_agent.Runner.FeedbackWriter.{
  FeedbackEvent, FeedbackKind, thumbs_up, dismissed, FeedbackWriterOptions,
  feedback_kind_to_fact_type, input_of, redacted,
}
use review_agent.Runner.Agent.Filters.{is_hex, extract_fingerprint}
use review_agent.Runner.Agent.Filters.Prefix.{extract_fingerprint-prefixed}
use review_agent.Runner.Agent.Job.{ReviewJob, ReviewDeps}
use review_agent.Runner.Agent.{add, rejected_fingerprints, fact_fingerprints, run_review_inner}
use review_agent.Runner.Agent.Ends.{read}
use review_agent.Runner.Agent.Posted.{run_review_inner-IsPosted}

-- The fingerprint of an event is read back from the fact that the writer stores for it, whatever the
-- text that follows it, if it is made of lower-case hexadecimal digits.
pub extract_fingerprint-input_of :
    (opts : FeedbackWriterOptions) (e : FeedbackEvent)
    → All (λ c. is_hex c ≡ true) e.fingerprint
    → e.fingerprint ≢ []
    → extract_fingerprint (input_of opts e).fact.fact_text ≡ some e.fingerprint
extract_fingerprint-input_of opts e h n =
    ap extract_fingerprint (
      ap (λ t. text "[fp:" ++ t)
        (append_assoc e.fingerprint (b']' ∷ [])
          (b' ' ∷ redacted (opts.quick_scan e.fact_text) e.fact_text)))
    ∙ extract_fingerprint-prefixed e.fingerprint
        (b' ' ∷ redacted (opts.quick_scan e.fact_text) e.fact_text) h n

add-has :
    (o : Option Text) (fps : List Text) (fp : Text) → has fps fp ≡ true → has (add o fps) fp ≡ true
unfolding has
add-has none fps fp h = h
add-has (some x) fps fp h = ground arith

fact_fingerprints-has :
    (p : FactRow → Bool) (before after : List FactRow) (row : FactRow) (fp : Text)
    → p row ≡ true
    → extract_fingerprint row.fact_text ≡ some fp
    → has (fact_fingerprints p (before ++ (row ∷ after))) fp ≡ true
unfolding fact_fingerprints has
fact_fingerprints-has p [] after row fp h e = rw h (rw e (ground (arith, text_eq_refl fp)))
fact_fingerprints-has p (r ∷ before) after row fp h e =
    let rest = fact_fingerprints-has p before after row fp h e in
    elim (Bool-cases (p r)) [
      | inl k ↦ rw k (add-has (extract_fingerprint r.fact_text) _ fp rest)
      | inr k ↦ rw k rest
    ]

rejects : (k : FeedbackKind) → k ≢ thumbs_up → feedback_kind_to_fact_type k ≡ rejected_finding
unfolding feedback_kind_to_fact_type
rejects thumbs_up n = absurd (n refl)
rejects dismissed n = refl
rejects FeedbackKind.thumbs_down n = refl

apart : (fps : List Text) {a b : Text} → has fps a ≡ false → has fps b ≡ true → a ≢ b
apart fps {a} {b} p q e = subst (λ x. has fps x ≡ false → ⊥) (sym e) (λ u. cc (u, q)) p

-- A finding that was rejected or dismissed, with a fingerprint of lower-case hexadecimal digits, is
-- not posted by a later review that reads the stored fact in its history, whatever else is in the
-- history, and whatever the model reports, if the review returns without being aborted.
pub run_review_inner-learned :
    (opts : FeedbackWriterOptions) (e : FeedbackEvent)
    → All (λ c. is_hex c ≡ true) e.fingerprint
    → e.fingerprint ≢ []
    → e.kind ≢ thumbs_up
    → (job : ReviewJob) (deps : ReviewDeps) (before after : List FactRow)
    → read deps.history ≡ before ++ ((input_of opts e).fact ∷ after)
    → {r : RunnerResult} → (run_review_inner job deps).0 ≡ ok r
    → r.aborted ≡ none
    → All (λ c. c.fingerprint ≢ e.fingerprint) r.comments
run_review_inner-learned opts e hex n kind job deps before after history {r} h a =
    let known : has (rejected_fingerprints (read deps.history)) e.fingerprint ≡ true = rw history (
      fact_fingerprints-has _ before after (input_of opts e).fact e.fingerprint
        (rw (rejects e.kind kind) refl) (extract_fingerprint-input_of opts e hex n)) in
    All-mono (λ c w. apart (rejected_fingerprints (read deps.history)) w.0.0.0.0 known) r.comments
      (run_review_inner-IsPosted job deps h a).wanted
