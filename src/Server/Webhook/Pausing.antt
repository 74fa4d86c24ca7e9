-- ===== src/Server/Webhook/Pausing.antt =====
-- `/skip`, `/resume` and the reviews that follow them.
use mathlib.Core.Path.{subst}
use review_agent.Common.{
  ℕ, ◌+◌, ◌≡◌, refl, sym, ap, ◌∙◌, Bool, true, false, none, some, or_default, [], Text, ok,
}
use review_agent.Server.ParseCommand.{
  SlashCommand, review, skip, resume, parse_slash_command, parse_feedback_command,
}
use review_agent.Server.Webhook.Bodies.{issue_comment, EventBody, comment_body}
use review_agent.Server.Webhook.Deps.{
  ReviewStateRow, DbClient, allowed, WebhookHandlerDeps, Language, World,
}
use review_agent.Server.Webhook.Shared.{
  check_command_authz, check_input, ask_authz, place, build_pr_id,
}
use review_agent.Server.Webhook.Comments.{set_paused, handle_slash_command, run_command}
use review_agent.Server.Webhook.{handle_command, on_pull_request, handle_webhook}
use review_agent.Server.Webhook.Authorised.{CanWrite}

-- What the database promises: an update of a row that is there is what the next query reads.
pub record IsStore {D : Type 0} (db : DbClient D) : Type 0 where
  pub select-update :
      (d d' : D) (id : ℕ) (pr_id : Text) (row : ReviewStateRow) (paused : Bool) (now : ℕ)
      → db.select_review_state d id pr_id ≡ ok (some row)
      → db.update_review_state d id pr_id paused now ≡ ok d'
      → db.select_review_state d' id pr_id
        ≡ ok (some (record { updated_at = now; paused = paused }))

-- a comment on a pull request that is a slash command of a sender with write permission
pub record IsCommand {D : Type 0} (lang : Language) (deps : WebhookHandlerDeps D)
    (slash : SlashCommand) (b : EventBody) : Type 0 where
  pub commented : on_pull_request lang deps b.issue ≡ true
  pub no_feedback :
      parse_feedback_command lang.to_lower_case (or_default (comment_body b) []) ≡ none
  pub parsed : parse_slash_command lang.to_lower_case (or_default (comment_body b) []) ≡ some slash
  pub can_write : CanWrite deps b

module _ {D : Type 0} (lang : Language) (deps : WebhookHandlerDeps D) (b : EventBody)
    (s : World D) where
  unfoldable pub tick : World D
  tick = record s { ticks = s.ticks + 1 }

  authorised : (t : World D) → CanWrite deps b → check_command_authz deps b t ≡ (ok allowed, t)
  unfolding check_command_authz
  authorised t w =
      ap (λ o. check_input deps o t) w.named
      ∙ (ap (λ c. ask_authz deps c w.input t) w.wired ∙ ap (λ r. (r, t)) w.allows)

  pub command_runs :
      (slash : SlashCommand)
      → IsCommand lang deps slash b
      → handle_webhook lang deps issue_comment b s
        ≡ run_command lang deps slash b (deps.now s.ticks) tick
  unfolding handle_webhook handle_command handle_slash_command tick
  command_runs slash c =
      rw c.commented (rw c.no_feedback (rw c.parsed (rw (authorised tick c.can_write) refl)))

-- the commands that set the flag
pub data Flags : SlashCommand → Bool → Type 0 where
  pauses : Flags skip true
  resumes : Flags resume false

module _ {D : Type 0} (lang : Language) (deps : WebhookHandlerDeps D) (b : EventBody) (s : World D)
    (db : DbClient D) (id : ℕ) (pr_id : Text) (d : D) where
  flag-sets :
      (slash : SlashCommand) {paused : Bool}
      → Flags slash paused
      → place deps b (build_pr_id b) ≡ some (db, id, pr_id)
      → db.update_review_state s.database id pr_id paused (deps.now s.ticks) ≡ ok d
      → (run_command lang deps slash b (deps.now s.ticks) (tick lang deps b s)).1.database ≡ d
  unfolding set_paused tick
  flag-sets skip pauses at stored = rw at (rw stored refl)
  flag-sets resume resumes at stored = rw at (rw stored refl)
  flag-sets (review scope) flag at stored = elim flag [ ]

  -- what a query finds after a command that set the flag
  pub flag-select :
      IsStore db
      → (slash : SlashCommand) (paused : Bool) → Flags slash paused
      → IsCommand lang deps slash b
      → place deps b (build_pr_id b) ≡ some (db, id, pr_id)
      → (row : ReviewStateRow) → db.select_review_state s.database id pr_id ≡ ok (some row)
      → db.update_review_state s.database id pr_id paused (deps.now s.ticks) ≡ ok d
      → (t : World D) → t.database ≡ (handle_webhook lang deps issue_comment b s).1.database
      → db.select_review_state t.database id pr_id
        ≡ ok (some (record { updated_at = deps.now s.ticks; paused = paused }))
  flag-select store slash paused flag c at row found stored t same =
      let e : t.database ≡ d =
        same
        ∙ ap (λ r. r.1.database) (command_runs lang deps b s slash c)
        ∙ flag-sets slash flag at stored in
      subst
        (λ x.
          db.select_review_state x id pr_id
          ≡ ok (some (record { updated_at = deps.now s.ticks; paused = paused })))
        (sym e)
        (store.select-update s.database d id pr_id row paused (deps.now s.ticks) found stored)
