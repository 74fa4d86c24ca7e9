-- ===== src/Core/Queue.antt =====
-- packages/core/src/queue.ts: the message of a review job and its schema.
use review_agent.Common.{
  ℕ, Bool, true, false, ◌&&◌, Option, none, some, List, [], ◌∷◌, Text, text, has, all, not,
  is_empty, leb, length,
}

pub data Platform : Type 0 where
  github codecommit : Platform

pub record PrRef : Type 0 where
  pub platform : Platform
  pub owner : Text
  pub repo : Text
  pub number : ℕ
  pub head_sha : Option Text

pub record JobMessage : Type 0 where
  pub job_id : Text
  pub installation_id : Text
  pub pr_ref : PrRef
  pub triggered_by : Text
  pub enqueued_at : Text
  pub path_scope : Option (List Text)

-- `z.string().min(low).max(high)`
abbrev pub sized : ℕ → ℕ → Text → Bool
sized low high t = leb low (length t) && leb (length t) high

abbrev pub optional {ℓ} : {A : Type ℓ} → (A → Bool) → Option A → Bool
optional p none = true
optional p (some a) = p a

abbrev pub triggers : List Text
triggers =
    text "pull_request.opened"
    ∷ text "pull_request.synchronize"
    ∷ text "pull_request.reopened"
    ∷ text "pull_request.ready_for_review"
    ∷ text "comment.command"
    ∷ text "manual"
    ∷ []

unfoldable pub is_github_ref : PrRef → Bool
is_github_ref r =
    sized 1 200 r.owner && sized 1 200 r.repo && leb 1 r.number && optional (sized 7 64) r.head_sha

unfoldable pub is_codecommit_ref : PrRef → Bool
is_codecommit_ref r =
    is_empty r.owner && sized 1 200 r.repo && leb 1 r.number && optional (sized 7 64) r.head_sha

abbrev pub is_pr_ref : Platform → PrRef → Bool
is_pr_ref github r = is_github_ref r
is_pr_ref codecommit r = is_codecommit_ref r

abbrev pub is_path_scope : List Text → Bool
is_path_scope [] = false
is_path_scope (p ∷ paths) = all (λ q. not (is_empty q)) (p ∷ paths)

-- `JobMessageSchema.safeParse(m).success`; whether a text is a time is the schema library's
unfoldable pub is_job_message : (is_datetime : Text → Bool) → JobMessage → Bool
unfolding is_github_ref is_codecommit_ref has
is_job_message is_datetime m =
    sized 1 128 m.job_id
    && sized 1 64 m.installation_id
    && is_pr_ref m.pr_ref.platform m.pr_ref
    && has triggers m.triggered_by
    && is_datetime m.enqueued_at
    && optional is_path_scope m.path_scope
