-- ===== src/Server/Webhook/Paused.antt =====
-- A pull request that was paused is not reviewed on pushes, and is again once it was resumed.
use review_agent.Common.{
  ℕ, ◌+◌, ◌<◌, ◌≡◌, refl, ap, ◌∙◌, Bool, true, false, Option, none, some, or_default, [], ◌∷◌, ◌++◌,
  Text, text, ok,
}
use review_agent.Core.Queue.{JobMessage}
use review_agent.Server.ParseCommand.{SlashCommand, review, skip, resume}
use review_agent.Server.Webhook.Bodies.{
  pull_request, issue_comment, EventBody, positive, installation_id,
}
use review_agent.Server.Webhook.Deps.{ReviewStateRow, DbClient, WebhookHandlerDeps, Language, World}
use review_agent.Server.Webhook.Shared.{
  ignored, enqueued, read_review_state_row, place, build_pr_id, check_debounce, default_debounce_ms,
  build_job_message,
}
use review_agent.Server.Webhook.Comments.{review_once}
use review_agent.Server.Webhook.Pushes.{is_marked, is_draft, pull_request_id, has_skip_label}
use review_agent.Server.Webhook.{handle_webhook}
use review_agent.Server.Webhook.Automatic.{has-triggers}
use review_agent.Server.Webhook.Jobs.{IsJob, build_job_message_with_scope-IsJob}
use review_agent.Server.Webhook.Pausing.{
  IsStore, IsCommand, Flags, pauses, resumes, flag-select, tick, command_runs,
}
use review_agent.Server.Webhook.Guards.{
  lt→ltb, push-enqueues, IsPush, stopped, passed, auto_review-sends, build_job_message-some,
  place_pr_id,
}

module _ {D : Type 0} (lang : Language) (db : DbClient D) (store : IsStore db) (id : ℕ)
    (pr_id : Text) (deps : WebhookHandlerDeps D) (b : EventBody) (s : World D) (d : D)
    (row : ReviewStateRow) (at : place deps b (build_pr_id b) ≡ some (db, id, pr_id))
    (found : db.select_review_state s.database id pr_id ≡ ok (some row))
    (later_deps : WebhookHandlerDeps D) (later : EventBody) (t : World D)
    (same : t.database ≡ (handle_webhook lang deps issue_comment b s).1.database) where
  -- A `/skip` of a sender with write permission, on a pull request that has a row, is carried out by
  -- an update that the database accepts. Then every push event of that pull request is ignored and
  -- changes nothing, as long as the database is as the command left it.
  pub skip-push :
      IsCommand lang deps skip b
      → db.update_review_state s.database id pr_id true (deps.now s.ticks) ≡ ok d
      → IsPush later
      → place later_deps later (pull_request_id later) ≡ some (db, id, pr_id)
      → (reason : Text) × (handle_webhook lang later_deps pull_request later t
          ≡ (ok (ignored reason), t))
  skip-push c stored p there =
      stopped lang later_deps later t db id pr_id there (deps.now s.ticks) true
        (flag-select lang deps b s db id pr_id d store skip true pauses c at row found stored t
          same)
        p refl

  -- A `/resume` of a sender with write permission, on a pull request that has a row, is carried out
  -- by an update that the database accepts. Then, as long as the database is as the command left it,
  -- a push event of that pull request sends exactly one message, which names the pull request of the
  -- event, if it is no draft, has no skip marker and no skip label, and names its installation, and
  -- if the queue takes every message.
  pub resume-push :
      IsCommand lang deps resume b
      → db.update_review_state s.database id pr_id false (deps.now s.ticks) ≡ ok d
      → (p : IsPush later) → place later_deps later (pull_request_id later) ≡ some (db, id, pr_id)
      → is_draft later.pull_request ≡ false
      → is_marked later.pull_request ≡ false
      → has_skip_label lang later_deps later ≡ false
      → {i : ℕ} → positive (installation_id later) ≡ some i
      → ((m : JobMessage) → (n : Text) × (later_deps.enqueue m ≡ ok n))
      → (m : JobMessage) × (n : Text) × ((handle_webhook lang later_deps pull_request later t).0
          ≡ ok (enqueued n))
        × ((handle_webhook lang later_deps pull_request later t).1.queue ≡ t.queue ++ (m ∷ []))
        × IsJob later m
  unfolding build_job_message
  resume-push c stored p there draft marked labelled i takes =
      let read =
        flag-select lang deps b s db id pr_id d store resume false resumes c at row found stored t
          same in
      let e =
        passed lang later_deps later t db id pr_id there (deps.now s.ticks) false read p refl draft
          marked labelled in
      let trigger : Text = text "pull_request." ++ p.action in
      let now : ℕ = later_deps.now t.ticks in
      let (m, built) =
        build_job_message-some lang later trigger now (place_pr_id later_deps later _ there) i in
      let (n, sent) = takes m in
      let known = push-enqueues p.action p.pushed in
      let (r, q) = auto_review-sends lang later_deps later t p.action known m n built sent in
      (
        m,
        n,
        ap (λ x. x.0) e ∙ r,
        ap (λ x. x.1.queue) e ∙ q,
        build_job_message_with_scope-IsJob lang later trigger now none (has-triggers p.action known)
            tt m built,
      )

  -- A `/skip` or `/resume` of a sender with write permission, on a pull request that has a row, is
  -- carried out by an update that the database accepts. It also marks the pull request as just
  -- reviewed: as long as the database is as the command left it, a `/review` of a sender with write
  -- permission within the debounce window after it is ignored as if a review were in flight, and
  -- nothing is sent.
  pub flag-review :
      (slash : SlashCommand) (paused : Bool)
      → Flags slash paused
      → IsCommand lang deps slash b
      → db.update_review_state s.database id pr_id paused (deps.now s.ticks) ≡ ok d
      → (scope : Option Text) → IsCommand lang later_deps (review scope) later
      → place later_deps later (build_pr_id later) ≡ some (db, id, pr_id)
      → later_deps.now t.ticks
        < deps.now s.ticks + or_default later_deps.debounce_ms default_debounce_ms
      → ((handle_webhook lang later_deps issue_comment later t).0
          ≡ ok (ignored (text "debounced: review already in flight")))
        × ((handle_webhook lang later_deps issue_comment later t).1.queue ≡ t.queue)
  unfolding review_once check_debounce read_review_state_row tick
  flag-review slash paused flag c stored scope r there soon =
      let read =
        flag-select lang deps b s db id pr_id d store slash paused flag c at row found stored t
          same in
      rw (command_runs lang later_deps later t (review scope) r)
        (rw there (rw read (rw (lt→ltb soon) (refl, refl))))
