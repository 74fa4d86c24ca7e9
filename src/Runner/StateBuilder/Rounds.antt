-- ===== src/Runner/StateBuilder/Rounds.antt =====
-- What the state remembers, and so what the next review does not post again.
use review_agent.Common.{
  ◌≡◌, sym, ap, ◌∙◌, true, false, ◌||◌, none, some, List, [], ◌∷◌, ◌++◌, Text, has, has-append,
  text_eq, text_eq_iff, Distinct, Distinct-concat, All, All-mono, arith, Bool-cases, inl, inr, ok,
  ℕ, if◌then◌else◌,
}
use review_agent.Runner.Dedup.{previous_fingerprints}
use review_agent.Runner.Dedup.Fresh.{fingerprints}
use review_agent.Runner.Types.{RunnerResult}
use review_agent.Runner.Agent.Job.{ReviewJob, ReviewDeps}
use review_agent.Runner.Agent.{run_review_inner}
use review_agent.Runner.Agent.Posted.{run_review_inner-IsPosted}
use review_agent.Runner.StateBuilder.{BuildStateInput, set_with, build_review_state}

set_with-Distinct : (seen ts : List Text) → Distinct seen → Distinct (set_with seen ts)
unfolding set_with
set_with-Distinct seen [] h = h
set_with-Distinct seen (t ∷ ts) h = elim (Bool-cases (has seen t)) [
  | inl e ↦ rw (e, set_with) (set_with-Distinct seen ts h)
  | inr e ↦ rw (e, set_with) (set_with-Distinct _ ts (Distinct-concat seen t h e))
]

has-same :
    (seen : List Text) (t u : Text) → has seen t ≡ true → has seen u ≡ (has seen u || text_eq t u)
has-same seen t u h = elim (Bool-cases (text_eq t u)) [
  | inl e ↦ ground (arith, h, ap (has seen) ((text_eq_iff t u).0 e))
  | inr e ↦ ground arith
]

has-add :
    (seen : List Text) (t u : Text)
    → has (if has seen t then seen else seen ++ (t ∷ [])) u ≡ (has seen u || text_eq t u)
unfolding has
has-add seen t u = elim (Bool-cases (has seen t)) [
  | inl e ↦ rw e (has-same seen t u e)
  | inr e ↦ rw e (ground (arith, has-append seen (t ∷ []) u))
]

has-set_with :
    (seen ts : List Text) (u : Text) → has (set_with seen ts) u ≡ (has seen u || has ts u)
unfolding set_with has
has-set_with seen [] u = ground arith
has-set_with seen (t ∷ ts) u =
    ground
      (arith, has-set_with (if has seen t then seen else seen ++ (t ∷ [])) ts u, has-add seen t u)

-- The state holds every fingerprint once, and exactly those of the previous state and of the
-- comments.
pub build_review_state-fingerprints :
    (input : BuildStateInput) (now : ℕ)
    → Distinct (build_review_state input now).comment_fingerprints
      × ((t : Text)
          → has (build_review_state input now).comment_fingerprints t ≡ (
              has (previous_fingerprints input.previous_state) t
              || has (fingerprints input.comments) t))
unfolding build_review_state has
build_review_state-fingerprints input now = (
  set_with-Distinct [] (previous_fingerprints input.previous_state ++ fingerprints input.comments)
      tt,
  λ t.
      has-set_with [] (previous_fingerprints input.previous_state ++ fingerprints input.comments) t
      ∙ has-append (previous_fingerprints input.previous_state) (fingerprints input.comments) t,
)

not_remembered :
    (input : BuildStateInput) (now : ℕ) (t : Text)
    → has (build_review_state input now).comment_fingerprints t ≡ false
    → (has (previous_fingerprints input.previous_state) t ≡ false)
      × (has (fingerprints input.comments) t ≡ false)
not_remembered input now t h =
    let e = (build_review_state-fingerprints input now).1 t in (ground arith, ground arith)

-- If the state of a later review is the one built of some comments, and the later review returns
-- without being aborted, then none of its comments has the fingerprint of one of these, or of any
-- comment that the state before them remembered.
pub later-new :
    (input : BuildStateInput) (now : ℕ) (job : ReviewJob) (deps : ReviewDeps) {r : RunnerResult}
    → job.previous_state ≡ some (build_review_state input now)
    → (run_review_inner job deps).0 ≡ ok r
    → r.aborted ≡ none
    → All
        (λ k.
          (has (previous_fingerprints input.previous_state) k.fingerprint ≡ false)
          × (has (fingerprints input.comments) k.fingerprint ≡ false))
        r.comments
later-new input now job deps s h n =
    All-mono
      (λ k w.
        not_remembered input now k.fingerprint
          (sym (ap (λ p. has (previous_fingerprints p) k.fingerprint) s) ∙ w.0.0.0.1))
      _ (run_review_inner-IsPosted job deps h n).wanted
