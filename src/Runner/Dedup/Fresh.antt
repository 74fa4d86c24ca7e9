-- ===== src/Runner/Dedup/Fresh.antt =====
-- What the deduplication keeps, and what becomes of every comment.
use review_agent.Common.{
  ℕ, ◌+◌, ◌≡◌, true, false, ◌||◌, Option, List, [], ◌∷◌, ◌++◌, map, map-append, Text, has,
  has-append, text_eq_refl, Distinct, Distinct-concat, All, All-append, length, length-append,
  arith, Bool-cases, inl, inr,
}
use review_agent.Core.Review.{InlineComment, ReviewState}
use review_agent.Runner.Types.{ReviewOutputComment, FingerprintInput, with_fingerprint}
use review_agent.Runner.Dedup.{
  DedupState, previous_fingerprints, fingerprint_of, dedup_step, dedup_loop, dedup_comments,
}

abbrev pub fingerprints : List InlineComment → List Text
fingerprints = map (λ k. k.fingerprint)

-- after some comments, from the fingerprints of the previous review
record IsFresh (previous rejected : List Text) (s : DedupState) : Type 0 where
  distinct : Distinct (fingerprints s.kept)
  new :
      All (λ k. (has rejected k.fingerprint ≡ false) × (has previous k.fingerprint ≡ false)) s.kept
  seen : (t : Text) → has s.seen t ≡ (has previous t || has (fingerprints s.kept) t)

module _ (fingerprint : FingerprintInput → Text)
    (suggestion_type_for : ReviewOutputComment → Text) where
  abbrev fp_of : ReviewOutputComment → Text
  fp_of = fingerprint_of fingerprint suggestion_type_for

  abbrev step : List Text → DedupState → ReviewOutputComment → DedupState
  step = dedup_step fingerprint suggestion_type_for

  keep-IsFresh :
      {previous rejected : List Text} (s : DedupState) (c : ReviewOutputComment)
      → IsFresh previous rejected s
      → has rejected (fp_of c) ≡ false
      → has s.seen (fp_of c) ≡ false
      → IsFresh previous rejected (record s {
        seen = fp_of c ∷ s.seen;
        kept = s.kept ++ (with_fingerprint c (fp_of c) ∷ []);
      })
  unfolding has
  keep-IsFresh {previous} {rejected} s c h r e = record {
    distinct = rw (map-append (λ k. k.fingerprint) s.kept) (
        Distinct-concat (fingerprints s.kept) (fp_of c) h.distinct
          (ground (arith, h.seen (fp_of c))));
    new = All-append _ s.kept _ h.new ((r, ground (arith, h.seen (fp_of c))), tt);
    seen = λ t.
        rw (map-append (λ k. k.fingerprint) s.kept)
          (ground (arith, h.seen t, has-append (fingerprints s.kept) (fp_of c ∷ []) t));
  }

  step-IsFresh :
      {previous rejected : List Text} (s : DedupState) (c : ReviewOutputComment)
      → IsFresh previous rejected s
      → IsFresh previous rejected (step rejected s c)
  unfolding dedup_step
  step-IsFresh {previous} {rejected} s c h = elim (Bool-cases (has rejected (fp_of c))) [
    | inl r ↦ rw (r, dedup_step) (record { distinct = h.distinct; new = h.new; seen = h.seen })
    | inr r ↦ elim (Bool-cases (has s.seen (fp_of c))) [
      | inl e ↦ rw (r, e, dedup_step) (record { distinct = h.distinct; new = h.new; seen = h.seen })
      | inr e ↦ rw (r, e, dedup_step) (keep-IsFresh s c h r e)
    ]
  ]

  loop-IsFresh :
      {previous rejected : List Text} (s : DedupState) (cs : List ReviewOutputComment)
      → IsFresh previous rejected s
      → IsFresh previous rejected (dedup_loop fingerprint suggestion_type_for rejected s cs)
  unfolding dedup_loop
  loop-IsFresh s [] h = h
  loop-IsFresh {previous} {rejected} s (c ∷ cs) h =
      loop-IsFresh (step rejected s c) cs (step-IsFresh s c h)

  -- The fingerprint of a comment is rejected, or of the previous review, or among those kept.
  abbrev Handled : (previous rejected : List Text) → DedupState → ReviewOutputComment → Type 0
  Handled previous rejected s c =
      (has rejected (fp_of c) || (has previous (fp_of c) || has (fingerprints s.kept) (fp_of c)))
      ≡ true

  step-grows :
      (rejected : List Text) (s : DedupState) (c : ReviewOutputComment) (t : Text)
      → has (fingerprints s.kept) t ≡ true
      → has (fingerprints (step rejected s c).kept) t ≡ true
  unfolding dedup_step has
  step-grows rejected s c t h = ground (
    arith,
    map-append (λ (k : InlineComment). k.fingerprint) s.kept (with_fingerprint c (fp_of c) ∷ []),
    has-append (fingerprints s.kept) (fp_of c ∷ []) t,
  )

  loop-grows :
      (rejected : List Text) (s : DedupState) (cs : List ReviewOutputComment) (t : Text)
      → has (fingerprints s.kept) t ≡ true
      → has (fingerprints (dedup_loop fingerprint suggestion_type_for rejected s cs).kept) t ≡ true
  unfolding dedup_loop
  loop-grows rejected s [] t h = h
  loop-grows rejected s (c ∷ cs) t h =
      loop-grows rejected (step rejected s c) cs t (step-grows rejected s c t h)

  step-Handled :
      {previous rejected : List Text} (s : DedupState) (c : ReviewOutputComment)
      → IsFresh previous rejected s
      → Handled previous rejected (step rejected s c) c
  unfolding dedup_step has
  step-Handled {previous} {rejected} s c h = ground (
    arith,
    h.seen (fp_of c),
    text_eq_refl (fp_of c),
    map-append (λ (k : InlineComment). k.fingerprint) s.kept (with_fingerprint c (fp_of c) ∷ []),
    has-append (fingerprints s.kept) (fp_of c ∷ []) (fp_of c),
  )

  loop-Handled :
      {previous rejected : List Text} (s : DedupState) (cs : List ReviewOutputComment)
      → IsFresh previous rejected s
      → All
          (Handled previous rejected (dedup_loop fingerprint suggestion_type_for rejected s cs))
          cs
  unfolding dedup_loop
  loop-Handled s [] h = tt
  loop-Handled {previous} {rejected} s (c ∷ cs) h = (
    ground (arith, step-Handled s c h, loop-grows rejected (step rejected s c) cs (fp_of c)),
    loop-Handled (step rejected s c) cs (step-IsFresh s c h),
  )

  abbrev total : DedupState → ℕ
  total s = length s.kept + s.dropped_count + s.dropped_by_feedback

  step-total :
      (rejected : List Text) (s : DedupState) (c : ReviewOutputComment)
      → total (step rejected s c) ≡ total s + 1
  unfolding dedup_step
  step-total rejected s c = ground (arith, length-append s.kept (with_fingerprint c (fp_of c) ∷ []))

  loop-total :
      (rejected : List Text) (s : DedupState) (cs : List ReviewOutputComment)
      → total (dedup_loop fingerprint suggestion_type_for rejected s cs) ≡ total s + length cs
  unfolding dedup_loop
  loop-total rejected s [] = omega arith
  loop-total rejected s (c ∷ cs) =
      omega (arith, loop-total rejected (step rejected s c) cs, step-total rejected s c)

  pub record IsDeduped (comments : List ReviewOutputComment) (previous rejected : List Text)
      (s : DedupState) : Type 0 where
    pub distinct : Distinct (fingerprints s.kept)
    pub new :
        All
          (λ k. (has rejected k.fingerprint ≡ false) × (has previous k.fingerprint ≡ false))
          s.kept
    pub handled : All (Handled previous rejected s) comments
    pub counted : length s.kept + s.dropped_count + s.dropped_by_feedback ≡ length comments

  -- Whatever the fingerprint function: no two kept comments have the same fingerprint, and none has
  -- one that was rejected or belongs to the previous review; the fingerprint of every comment of
  -- the model is rejected, or of the previous review, or among those kept; and the kept comments
  -- and the two counts of dropped ones add up to the comments of the model.
  pub dedup_comments-IsDeduped :
      (comments : List ReviewOutputComment) (previous : Option ReviewState) (rejected : List Text)
      → IsDeduped comments
          (previous_fingerprints previous)
          rejected
          (dedup_comments fingerprint suggestion_type_for comments previous rejected)
  unfolding dedup_comments
  dedup_comments-IsDeduped comments previous rejected =
      let s : DedupState = record {
        seen = previous_fingerprints previous;
        kept = [];
        dropped_count = 0;
        dropped_by_feedback = 0;
      } in
      let start : IsFresh (previous_fingerprints previous) rejected s = record {
        distinct = tt;
        new = tt;
        seen = λ t. ground arith;
      } in
      let fresh = loop-IsFresh s comments start in
      record {
        distinct = fresh.distinct;
        new = fresh.new;
        handled = loop-Handled s comments start;
        counted = omega (arith, loop-total rejected s comments);
      }
