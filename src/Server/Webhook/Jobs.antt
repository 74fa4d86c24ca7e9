-- ===== src/Server/Webhook/Jobs.antt =====
-- What every message of the webhook handler carries, and when it passes the schema of
-- packages/core/src/queue.ts.
use review_agent.Common.{ℕ, ◌≡◌, refl, true, Option, none, some, List, [], ◌∷◌, has, Text}
use mathlib.Core.Path.{subst}
use mathlib.Core.Option.{some-injective}
use review_agent.Core.Queue.{JobMessage, triggers}
use review_agent.Server.ParseCommand.Guards.{IsScope}
use review_agent.Server.Webhook.Bodies.{
  EventBody, chain, positive, installation_id, owner, repo, pr_number,
}
use review_agent.Server.Webhook.Deps.{Language}
use review_agent.Server.Webhook.Shared.{build_job_message_with_scope, job, head_sha}

abbrev Scoped : Option (List Text) → Type 0
Scoped none = Unit
Scoped (some paths) = (p : Text) × (paths ≡ p ∷ []) × IsScope (some p)

-- a message that names the pull request of the event, one of the known triggers, and one path or none
pub record IsJob (b : EventBody) (m : JobMessage) : Type 0 where
  pub owned : owner b ≡ some m.pr_ref.owner
  pub named : repo b ≡ some m.pr_ref.repo
  pub numbered : positive (pr_number b) ≡ some m.pr_ref.number
  pub headed : m.pr_ref.head_sha ≡ head_sha b
  pub triggered : has triggers m.triggered_by ≡ true
  pub scoped : Scoped m.path_scope

scope-Scoped : (scope : Option Text) → IsScope scope → Scoped (chain scope (λ p. some (p ∷ [])))
scope-Scoped none h = tt
scope-Scoped (some p) h = (p, refl, h)

pub chain-eq-some {ℓ κ} :
    {A : Type ℓ} {B : Type κ} (o : Option A) (f : A → Option B) {b : B}
    → chain o f ≡ some b
    → (a : A) × (o ≡ some a) × (f a ≡ some b)
chain-eq-some none f h = cc
chain-eq-some (some a) f h = (a, refl, h)

module _ (lang : Language) (b : EventBody) (trigger : Text) (now : ℕ) (scope : Option Text) where
  -- the parts of a message that was built
  unfoldable pub Built : JobMessage → Type 0
  Built m =
      (id : ℕ) × (o : Text) × (r : Text) × (n : ℕ) × (positive (installation_id b) ≡ some id)
      × (owner b ≡ some o)
      × (repo b ≡ some r)
      × (positive (pr_number b) ≡ some n)
      × (job lang b trigger now scope id o r n ≡ m)

  pub build_job_message_with_scope-Built :
      (m : JobMessage) → build_job_message_with_scope lang b trigger now scope ≡ some m → Built m
  unfolding build_job_message_with_scope Built
  build_job_message_with_scope-Built m e =
      let (id, p, e1) = chain-eq-some (positive (installation_id b)) _ e in
      let (o, q, e2) = chain-eq-some (owner b) _ e1 in
      let (r, u, e3) = chain-eq-some (repo b) _ e2 in
      let (n, v, e4) = chain-eq-some (positive (pr_number b)) _ e3 in
      (id, o, r, n, p, q, u, v, some-injective _ _ e4)

  pub build_job_message_with_scope-IsJob :
      has triggers trigger ≡ true
      → IsScope scope
      → (m : JobMessage) → build_job_message_with_scope lang b trigger now scope ≡ some m
      → IsJob b m
  unfolding Built
  build_job_message_with_scope-IsJob t h m e =
      let (id, o, r, n, p, q, u, v, w) = build_job_message_with_scope-Built m e in
      subst (IsJob b) w (record {
        owned = q;
        named = u;
        numbered = v;
        headed = refl;
        triggered = t;
        scoped = scope-Scoped scope h;
      })
