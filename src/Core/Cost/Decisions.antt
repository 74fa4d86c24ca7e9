-- ===== src/Core/Cost/Decisions.antt =====
-- Which decision each spending gets, and that spending more never gets a milder one.
use review_agent.Common.{ℕ, ◌*◌, ◌≤◌, ◌<◌, ◌≡◌, ◌⊎◌, inl, inr, false, arith, ltb, ◌==◌, Bool-cases}
use review_agent.Core.Cost.{
  AbortReason, CostGuardDecision, proceed, fallback, abort, kill, DecideCostInput, projected,
  daily_spent, decide_cost_action,
}

-- The spending that a decision stands for.
abbrev pub Warrants : DecideCostInput → CostGuardDecision → Type 0
Warrants i proceed =
    (daily_spent i ≡ false)
    × ((i.per_pr_cap ≡ 0)
        ⊎ ((2 * i.running ≤ 3 * i.per_pr_cap) × (5 * projected i ≤ 4 * i.per_pr_cap)))
Warrants i fallback =
    (daily_spent i ≡ false)
    × (0 < i.per_pr_cap)
    × (4 * i.per_pr_cap < 5 * projected i)
    × (projected i ≤ i.per_pr_cap)
Warrants i (abort AbortReason.daily_cap r c) =
    (0 < i.daily_cap) × (i.daily_cap ≤ i.daily) × (r ≡ i.daily) × (c ≡ i.daily_cap)
Warrants i (abort AbortReason.cost_exceeded r c) =
    (daily_spent i ≡ false)
    × (0 < i.per_pr_cap)
    × (i.per_pr_cap < projected i)
    × (2 * i.running ≤ 3 * i.per_pr_cap)
    × (r ≡ projected i)
    × (c ≡ i.per_pr_cap)
Warrants i (kill r c) =
    (daily_spent i ≡ false)
    × (0 < i.per_pr_cap)
    × (3 * i.per_pr_cap < 2 * i.running)
    × (r ≡ i.running)
    × (c ≡ i.per_pr_cap)

abbrev pub strictness : CostGuardDecision → ℕ
strictness proceed = 0
strictness fallback = 1
strictness (abort _ _ _) = 2
strictness (kill _ _) = 3

-- Each decision comes with the spending that it stands for: to abort for the day, a set daily cap
-- that is reached; otherwise it is not reached, and the decision is to kill only over 1.5 times a
-- set per-PR cap, to abort up to that with a projected cost over the cap, to fall back with one over
-- 0.8 of the cap, and to proceed with no per-PR cap or with at most 0.8 of it. The amounts that an abort or a kill carries are the ones compared.
pub decide_cost_action-Warrants : (i : DecideCostInput) → Warrants i (decide_cost_action i)
unfolding decide_cost_action
decide_cost_action-Warrants i = elim (Bool-cases (daily_spent i)) [
  | inl d ↦ rw d (ground arith)
  | inr d ↦ rw d (elim (Bool-cases (i.per_pr_cap == 0)) [
    | inl z ↦ rw z (ground arith)
    | inr z ↦ rw z (elim (Bool-cases (ltb (3 * i.per_pr_cap) (2 * i.running))) [
      | inl k ↦ rw k (ground arith)
      | inr k ↦ rw k (elim (Bool-cases (ltb i.per_pr_cap (projected i))) [
        | inl a ↦ rw a (ground arith)
        | inr a ↦ rw a (elim (Bool-cases (ltb (4 * i.per_pr_cap) (5 * projected i))) [
          | inl f ↦ rw f (ground arith)
          | inr f ↦ rw f (ground arith)
        ])
      ])
    ])
  ])
]

-- With more spent or a higher estimate, under the same caps and the same daily spending, the
-- decision is at least as strict.
pub decide_cost_action_mono :
    (i : DecideCostInput) (running estimate : ℕ)
    → i.running ≤ running
    → i.estimate ≤ estimate
    → strictness (decide_cost_action i)
      ≤ strictness (decide_cost_action (record i { running = running; estimate = estimate }))
unfolding decide_cost_action
decide_cost_action_mono i running estimate h k = ground arith
