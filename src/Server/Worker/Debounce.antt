-- ===== src/Server/Worker/Debounce.antt =====
-- packages/server/src/worker.ts against packages/db/src/review-state.ts: the worker asks the table for
-- another key than the mirror writes.
use review_agent.Common.{
  ℕ, ◌≡◌, refl, sym, ◌∙◌, false, Option, none, some, [], ◌∷◌, ◌++◌, All, All-append, Lacks, decimal,
  decimal-Lacks, Text, text, text_eq, text_eq_iff, Result, ok, Bool-cases, inl, inr, arith,
}
use mathlib.Core.Path.{subst}
use review_agent.Core.Queue.{JobMessage, PrRef}
use review_agent.Db.ReviewState.{ReviewStateRow, Table, id_for, select}
use review_agent.Db.ReviewState.Mirror.{Written, HasKey, Written-HasKey}
use review_agent.Server.Worker.{state_id, with_head, should_debounce, on_message}

Lacks-middle : (c : ℕ) (a b : Text) → Lacks c (a ++ (c ∷ b)) → ⊥
Lacks-middle c [] b h = h.0 refl
Lacks-middle c (d ∷ a) b h = Lacks-middle c a b h.1

-- a name without a colon, as those of owners and repositories are
abbrev pub IsPlain : PrRef → Type 0
IsPlain r = Lacks b':' r.owner × Lacks b':' r.repo

state_id-Lacks : (r : PrRef) → IsPlain r → Lacks b':' (state_id r)
unfolding state_id
state_id-Lacks r (o, p) =
    All-append _ r.owner _ o
      (omega arith, All-append _ r.repo _ p (omega arith, decimal-Lacks r.number))

module _ (r : PrRef) (plain : IsPlain r) where
  other_key : (row : ReviewStateRow) → HasKey row → text_eq row.id (state_id r) ≡ false
  unfolding id_for
  other_key row (q, e) = elim (Bool-cases (text_eq row.id (state_id r))) [
    | inl same ↦
        let eq : state_id r ≡ id_for q = sym ((text_eq_iff row.id (state_id r)).0 same) ∙ e in
        absurd (
          Lacks-middle b':' (decimal q.installation_id) q.pr_id
            (subst (Lacks b':') eq (state_id-Lacks r plain)))
    | inr other ↦ other
  ]

  select-none : (table : Table) → All HasKey table → select (state_id r) table ≡ none
  unfolding select
  select-none [] h = refl
  select-none (row ∷ rows) (hr, h) = rw (other_key row hr) (select-none rows h)

module _ (window : Option ℕ) (now : ℕ) (m : JobMessage) (table : Table) where
  with_head-false :
      (head : Option Text)
      → select (state_id m.pr_ref) table ≡ none
      → with_head (λ id. ok (select id table)) window now m.pr_ref head ≡ ok false
  with_head-false none e = refl
  with_head-false (some []) e = refl
  with_head-false (some (c ∷ head)) e = rw e refl

  should_debounce-false :
      IsPlain m.pr_ref
      → All HasKey table
      → should_debounce (λ id. ok (select id table)) window now m ≡ ok false
  unfolding should_debounce
  should_debounce-false plain h =
      elim (Bool-cases (text_eq m.triggered_by (text "pull_request.synchronize"))) [
        | inl push ↦
            rw push (with_head-false m.pr_ref.head_sha (select-none m.pr_ref plain table h))
        | inr other ↦ rw other refl
      ]

  -- On a table that the mirror has written, the worker handles every message whose owner and
  -- repository have no colon, however recent the review of another commit is: nothing is debounced.
  pub on_message-Written :
      {S : Type 0} (handler : JobMessage → S → Result Text S) (s : S)
      → IsPlain m.pr_ref
      → Written table
      → on_message (λ id. ok (select id table)) window handler now m s ≡ handler m s
  unfolding on_message
  on_message-Written handler s plain w = rw (should_debounce-false plain (Written-HasKey w)) refl
