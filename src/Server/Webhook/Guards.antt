-- ===== src/Server/Webhook/Guards.antt =====
-- How a push event passes the guards of the webhook handler, and the message that it then sends.
use review_agent.Common.{
  ℕ, ◌<◌, ◌≡◌, inl, inr, refl, ap, ◌∙◌, Bool, true, false, Option, none, some, Bool-cases, [], ◌∷◌,
  ◌++◌, has, Text, text, text_eq, text_eq_iff, ok, ltb, arith, if◌then◌else◌,
}
use mathlib.Core.Option.{some-injective}
use review_agent.Core.Queue.{JobMessage}
use review_agent.Server.Webhook.Bodies.{
  pull_request, EventBody, chain, positive, or_other, installation_id, owner, repo, pr_number,
}
use review_agent.Server.Webhook.Deps.{DbClient, WebhookHandlerDeps, Language, World, pure}
use review_agent.Server.Webhook.Shared.{
  ignored, enqueued, job, read_review_state_row, read_paused_state, place, build_job_message,
  build_job_message_with_scope, enqueue_job,
}
use review_agent.Server.Webhook.Pushes.{
  enqueue_pr_actions, push_triggered_actions, is_marked, is_draft, pull_request_id, has_skip_label,
  auto_review, paused_at, handle_push, handle_action, on_action, handle_pull_request,
}
use review_agent.Server.Webhook.{handle_webhook}
use review_agent.Server.Webhook.Jobs.{chain-eq-some}

pub lt→ltb : {a b : ℕ} → a < b → ltb a b ≡ true
lt→ltb {a} {b} h = ground arith

push-labeled :
    (action : Text)
    → has push_triggered_actions action ≡ true
    → text_eq action (text "labeled") ≡ false
unfolding has
push-labeled action h = ground (
  arith,
  text_eq_iff (text "opened") action,
  text_eq_iff (text "synchronize") action,
  text_eq_iff (text "reopened") action,
  text_eq_iff action (text "labeled"),
)

pub push-enqueues :
    (action : Text)
    → has push_triggered_actions action ≡ true
    → has enqueue_pr_actions action ≡ true
unfolding has
push-enqueues action h = ground arith

-- an event of an action that a push triggers
pub record IsPush (b : EventBody) : Type 0 where
  pub action : Text
  pub acted : b.action ≡ some action
  pub pushed : has push_triggered_actions action ≡ true

module _ {D : Type 0} (lang : Language) (deps : WebhookHandlerDeps D) (b : EventBody)
    (t : World D) where
  on_action_push :
      (action : Text)
      → has push_triggered_actions action ≡ true
      → on_action lang deps (some action) b ≡ handle_action lang deps action b
  unfolding has handle_action
  on_action_push [] h = cc
  on_action_push (c ∷ action) h = refl

  push_handled :
      (p : IsPush b)
      → handle_webhook lang deps pull_request b t
        ≡ (if is_draft b.pull_request
              then pure (ignored (text "draft PR"))
              else handle_push lang deps p.action b)
            t
  unfolding handle_webhook handle_pull_request handle_action
  push_handled p =
      ap (λ o. on_action lang deps o b t) p.acted
      ∙ (ap (λ m. m t) (on_action_push p.action p.pushed)
          ∙ rw (push-labeled p.action p.pushed, push-enqueues p.action p.pushed, p.pushed) refl)

  module _ (db : DbClient D) (id : ℕ) (pr_id : Text)
      (at : place deps b (pull_request_id b) ≡ some (db, id, pr_id)) (now : ℕ) (paused : Bool)
      (found : db.select_review_state t.database id pr_id
        ≡ ok (some (record { updated_at = now; paused = paused })))
      (p : IsPush b) where
    flag_read : paused_at lang deps (place deps b (pull_request_id b)) t ≡ (ok paused, t)
    unfolding read_paused_state read_review_state_row
    flag_read = rw at (rw found refl)

    -- the row of a paused pull request stops the push
    pub stopped :
        paused ≡ true
        → (reason : Text) × (handle_webhook lang deps pull_request b t ≡ (ok (ignored reason), t))
    unfolding handle_push
    stopped flag = rw (push_handled p) (elim (Bool-cases (is_draft b.pull_request)) [
      | inl e ↦ rw e (text "draft PR", refl)
      | inr e ↦ rw e (elim (Bool-cases (is_marked b.pull_request)) [
        | inl f ↦ rw f (text "[skip review] marker in PR title/body", refl)
        | inr f ↦ rw f (elim (Bool-cases (has_skip_label lang deps b)) [
          | inl g ↦ rw g (text "PR carries a skip_label", refl)
          | inr g ↦ rw g (rw flag_read (rw flag (text "PR is paused (skip)", refl)))
        ])
      ])
    ])

    -- without it, and without the other guards, the push is handled as an automatic review
    pub passed :
        paused ≡ false
        → is_draft b.pull_request ≡ false
        → is_marked b.pull_request ≡ false
        → has_skip_label lang deps b ≡ false
        → handle_webhook lang deps pull_request b t ≡ auto_review lang deps p.action b t
    unfolding handle_push
    passed flag d m l = rw (push_handled p) (rw d (rw m (rw l (rw flag_read (rw flag refl)))))

  pub auto_review-sends :
      (action : Text)
      → has enqueue_pr_actions action ≡ true
      → (m : JobMessage) (id : Text)
      → build_job_message lang b (text "pull_request." ++ action) (deps.now t.ticks) ≡ some m
      → deps.enqueue m ≡ ok id
      → (auto_review lang deps action b t).0 ≡ ok (enqueued id)
        × (auto_review lang deps action b t).1.queue ≡ t.queue ++ (m ∷ [])
  unfolding auto_review enqueue_job
  auto_review-sends action h m id built sent = rw built (rw sent (refl, refl))

positive-or_other :
    (o o' : Option ℕ) {n : ℕ} → positive o ≡ some n → positive (or_other o o') ≡ some n
positive-or_other none o' h = cc
positive-or_other (some k) o' h = h

-- the parts of a pull request's identity are also those of its job
pub build_job_message-some :
    (lang : Language) (b : EventBody) (trigger : Text) (now : ℕ) {pr_id : Text} {id : ℕ}
    → pull_request_id b ≡ some pr_id
    → positive (installation_id b) ≡ some id
    → (m : JobMessage) × (build_job_message lang b trigger now ≡ some m)
unfolding build_job_message build_job_message_with_scope
build_job_message-some lang b trigger now {pr_id} {id} p q =
    let (o, u, e) = chain-eq-some (owner b) _ p in
    let (r, v, f) = chain-eq-some (repo b) _ e in
    let (n, w, g) = chain-eq-some (positive (chain b.pull_request (λ x. x.number))) _ f in
    let k : positive (pr_number b) ≡ some n =
      positive-or_other (chain b.pull_request (λ x. x.number)) (chain b.issue (λ x. x.number)) w in
    (job lang b trigger now none id o r n, rw q (rw u (rw v (rw k refl))))

pub place_pr_id :
    {D : Type 0} (deps : WebhookHandlerDeps D) (b : EventBody) (o : Option Text) {db : DbClient D}
    {id : ℕ} {pr_id : Text}
    → place deps b o ≡ some (db, id, pr_id)
    → o ≡ some pr_id
place_pr_id deps b o h =
    let (db, p, e) = chain-eq-some deps.db _ h in
    let (i, q, f) = chain-eq-some (installation_id b) _ e in
    let (x, u, g) = chain-eq-some o _ f in u ∙ ap some (ap (λ z. z.2) (some-injective _ _ g))
