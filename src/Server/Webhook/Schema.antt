-- ===== src/Server/Webhook/Schema.antt =====
-- The messages of the webhook handler against the schema of packages/core/src/queue.ts.
use mathlib.Core.Path.{subst}
use mathlib.Core.Option.{some-injective}
use review_agent.Common.{
  ℕ, zero, suc, ◌≤◌, ◌≡◌, refl, sym, ◌++◌, Bool, true, Option, none, some, [], ◌∷◌, has, Text,
  length, length-append, decimal, length-decimal, arith,
}
use review_agent.Core.Queue.{
  JobMessage, is_github_ref, is_job_message, optional, is_path_scope, sized, triggers,
}
use review_agent.Server.ParseCommand.Guards.{IsScope}
use review_agent.Server.Webhook.Bodies.{EventBody, chain, truthy, positive, pr_number}
use review_agent.Server.Webhook.Deps.{Language}
use review_agent.Server.Webhook.Shared.{build_job_message_with_scope, pr_id_of}
use review_agent.Server.Webhook.Jobs.{Built, build_job_message_with_scope-Built}

sized_iff : (low high : ℕ) (t : Text) → low ≤ length t → length t ≤ high → sized low high t ≡ true
sized_iff low high t h k = ground arith

length-truthy : (o : Option Text) {t : Text} → truthy o ≡ some t → 1 ≤ length t
length-truthy none h = cc
length-truthy (some []) h = cc
length-truthy (some (c ∷ u)) {t} h =
    let e : c ∷ u ≡ t = some-injective _ _ h in rw (sym e) (omega arith)

positive_le : (o : Option ℕ) {n : ℕ} → positive o ≡ some n → 1 ≤ n
positive_le none h = cc
positive_le (some zero) h = cc
positive_le (some (suc k)) {n} h = let e : suc k ≡ n = some-injective _ _ h in omega arith

length-pr_id_of : (o r : Text) (n : ℕ) (rest : Text) → 1 ≤ length (pr_id_of o r n ++ (b'@' ∷ rest))
length-pr_id_of o r n rest = omega (arith, length-append {0} (pr_id_of o r n) (b'@' ∷ rest))

scope_valid :
    (scope : Option Text)
    → IsScope scope
    → optional is_path_scope (chain scope (λ p. some (p ∷ []))) ≡ true
scope_valid none h = refl
scope_valid (some []) h = cc (h.0)
scope_valid (some (c ∷ p)) h = refl

-- A message that was built for an event passes the schema if its trigger is a known one, its path is
-- one that the command parser gives, its texts keep within the schema's lengths, the head commit, if
-- any, has 7 to 64 characters, and the written time is one that the schema library takes.
pub build_job_message_with_scope-is_job_message :
    (is_datetime : Text → Bool) (lang : Language) (b : EventBody) (trigger : Text) (now : ℕ)
    (scope : Option Text) (m : JobMessage)
    → build_job_message_with_scope lang b trigger now scope ≡ some m
    → has triggers trigger ≡ true
    → IsScope scope
    → is_datetime (lang.to_iso_string now) ≡ true
    → length m.job_id ≤ 128
    → length m.installation_id ≤ 64
    → length m.pr_ref.owner ≤ 200
    → length m.pr_ref.repo ≤ 200
    → optional (sized 7 64) m.pr_ref.head_sha ≡ true
    → is_job_message is_datetime m ≡ true
unfolding Built is_job_message is_github_ref
build_job_message_with_scope-is_job_message is_datetime lang b trigger now scope m e t s d l1 l2 l3
      l4 h =
    let (id, o, r, n, p, q, u, v, w) =
      build_job_message_with_scope-Built lang b trigger now scope m e in
    let n_le = positive_le (pr_number b) v in
    ground (
      arith,
      sized_iff 1 128 m.job_id
          (subst (λ x. 1 ≤ length x.job_id) w (length-pr_id_of o r n (decimal now))) l1,
      sized_iff 1 64 m.installation_id
          (subst (λ x. 1 ≤ length x.installation_id) w (length-decimal id)) l2,
      sized_iff 1 200 m.pr_ref.owner (subst (λ x. 1 ≤ length x.pr_ref.owner) w (length-truthy _ q))
          l3,
      sized_iff 1 200 m.pr_ref.repo (subst (λ x. 1 ≤ length x.pr_ref.repo) w (length-truthy _ u))
          l4,
      subst (λ x. 1 ≤ x.pr_ref.number) w n_le,
      subst (λ x. has triggers x.triggered_by ≡ true) w t,
      subst (λ x. is_datetime x.enqueued_at ≡ true) w d,
      subst (λ x. optional is_path_scope x.path_scope ≡ true) w (scope_valid scope s),
    )
