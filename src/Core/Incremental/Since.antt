-- ===== src/Core/Incremental/Since.antt =====
-- When a review covers only the new commits.
use review_agent.Common.{
  ◌≡◌, ◌≢◌, ◌↔◌, refl, sym, ap, ◌∙◌, Option, none, some, [], ◌∷◌, Text, text_eq, text_eq_iff,
  text_eq_refl, Bool-cases, inl, inr,
}
use review_agent.Core.Review.{ReviewState}
use review_agent.Core.Incremental.{
  since, previous_bases, current_bases, reachability, GitDeps, merge_base, reach, compare,
  from_state, compute_diff_strategy,
}

module _ (deps : GitDeps) where
  -- The previous head is still below the current one, and both branched off at the same commit.
  pub record Continues (state : ReviewState) (base_sha head_sha h : Text) : Type 0 where
    pub head : h ≡ state.last_reviewed_sha
    pub reviewed : state.last_reviewed_sha ≢ []
    pub based : state.base_sha ≢ []
    pub base : Text
    pub non_empty : base ≢ []
    pub previous :
        (merge_base deps previous_bases state.base_sha state.last_reviewed_sha).0 ≡ some base
    pub current : (merge_base deps current_bases base_sha head_sha).0 ≡ some base
    pub ancestor :
        (merge_base deps reachability state.last_reviewed_sha head_sha).0
        ≡ some state.last_reviewed_sha

  since-injective : {a b : Text} → since a ≡ since b → a ≡ b
  since-injective h = cc

  reach-since :
      (previous_head : Text) (o : Option Text) {h : Text}
      → reach deps previous_head o ≡ since h
      → (h ≡ previous_head) × (o ≡ some previous_head)
  reach-since previous_head none e = cc
  reach-since previous_head (some base) e = elim (Bool-cases (text_eq base previous_head)) [
    | inl q ↦ (since-injective (sym (rw q at e)), ap some ((text_eq_iff base previous_head).0 q))
    | inr q ↦ cc (rw q at e)
  ]

  compare-since :
      (previous_head head_sha : Text) (o o' : Option Text) {h : Text}
      → (compare deps previous_head head_sha o o').0 ≡ since h
      → (h ≡ previous_head)
        × (base : Text) × (base ≢ [])
        × (o ≡ some base)
        × (o' ≡ some base)
        × ((merge_base deps reachability previous_head head_sha).0 ≡ some previous_head)
  compare-since previous_head head_sha none o' e = cc
  compare-since previous_head head_sha (some []) o' e = cc
  compare-since previous_head head_sha (some (p ∷ prev)) none e = cc
  compare-since previous_head head_sha (some (p ∷ prev)) (some []) e = cc
  compare-since previous_head head_sha (some (p ∷ prev)) (some (c ∷ curr)) e =
      elim (Bool-cases (text_eq (p ∷ prev) (c ∷ curr))) [
        | inl q ↦
            let (a, b) = reach-since previous_head _ (rw q at e) in
            (a, p ∷ prev, λ n. cc, refl, ap some (sym ((text_eq_iff (p ∷ prev) (c ∷ curr)).0 q)), b)
        | inr q ↦ cc (rw q at e)
      ]

  from_state-since :
      (state : ReviewState) (last previous_base base_sha head_sha : Text) {h : Text}
      → last ≡ state.last_reviewed_sha
      → previous_base ≡ state.base_sha
      → (from_state deps last previous_base base_sha head_sha).0 ≡ since h
      → Continues state base_sha head_sha h
  from_state-since state [] b base_sha head_sha p q e = cc
  from_state-since state (c ∷ l) [] base_sha head_sha p q e = cc
  from_state-since state (c ∷ l) (d ∷ b) base_sha head_sha p q e =
      let (i, base, n, f, g, a) = compare-since (c ∷ l) head_sha _ _ e in
      record {
        head = i ∙ p;
        reviewed = λ z. cc;
        based = λ z. cc;
        base = base;
        non_empty = n;
        previous = rw (sym p, sym q) f;
        current = g;
        ancestor = rw (sym p) a;
      }

  continue-from_state :
      (last previous_base base_sha head_sha base : Text)
      → last ≢ []
      → previous_base ≢ []
      → base ≢ []
      → (merge_base deps previous_bases previous_base last).0 ≡ some base
      → (merge_base deps current_bases base_sha head_sha).0 ≡ some base
      → (merge_base deps reachability last head_sha).0 ≡ some last
      → (from_state deps last previous_base base_sha head_sha).0 ≡ since last
  continue-from_state [] b base_sha head_sha base n m k f g a = absurd (n refl)
  continue-from_state (c ∷ l) [] base_sha head_sha base n m k f g a = absurd (m refl)
  continue-from_state (c ∷ l) (d ∷ b) base_sha head_sha [] n m k f g a = absurd (k refl)
  continue-from_state (c ∷ l) (d ∷ b) base_sha head_sha (x ∷ base) n m k f g a =
      rw (f, g, text_eq_refl (x ∷ base), a, text_eq_refl (c ∷ l)) refl

  -- With a previous state, the strategy is to review since a commit exactly if that commit is the
  -- last reviewed one, both hashes of the state are there, git finds the same merge base for the
  -- previous pair and for the current one, and the last reviewed commit is below the current head.
  -- In every other case, failures of git included, the whole diff is reviewed.
  pub compute_diff_strategy-Continues :
      (state : ReviewState) (base_sha head_sha h : Text)
      → ((compute_diff_strategy deps (some state) base_sha head_sha).0 ≡ since h)
        ↔ Continues state base_sha head_sha h
  unfolding compute_diff_strategy
  compute_diff_strategy-Continues state base_sha head_sha h = (
    λ e.
        from_state-since state state.last_reviewed_sha state.base_sha base_sha head_sha refl refl e,
    λ c.
        continue-from_state state.last_reviewed_sha state.base_sha base_sha head_sha c.base
          c.reviewed c.based c.non_empty c.previous c.current c.ancestor
        ∙ ap since (sym c.head),
  )
