-- ===== src/Server/Webhook/Events.antt =====
-- packages/server/src/handlers/webhook.ts: installation events, reactions, and `/feedback`.
use review_agent.Common.{
  ℕ, ◌||◌, Option, none, some, or_default, [], ◌++◌, Text, text, text_eq, if◌then◌else◌,
}
use review_agent.Server.ParseCommand.{FeedbackCommand, FeedbackCommandKind, thumbs_up, thumbs_down}
use review_agent.Server.Webhook.Bodies.{
  EventBody, chain, or_other, installation_id, owner, repo, pr_number, username, comment_id,
}
use review_agent.Server.Webhook.Deps.{
  InstallationRow, DbClient, AuthzInput, FeedbackAuthzResult, allowed, denied,
  FeedbackCommandOutcome, recorded, unresolved, WebhookHandlerDeps, Act, ◌>>=◌, ◌>>◌, pure, write,
  count,
}
use review_agent.Server.Webhook.Shared.{
  WebhookResult, ignored, noop, installation, feedback_command, ask_authz,
}

abbrev pub row : ℕ → Text → Text → ℕ → InstallationRow
row app_id login type now = record {
  app_id = app_id;
  account_login = login;
  account_type = type;
  setup_action = text "install";
  suspended_at = none;
  updated_at = now;
}

-- the row of a payload that has all its fields
unfoldable pub installation_row : EventBody → ℕ → Option InstallationRow
installation_row b now = chain b.installation (λ i. chain i.app_id (λ app.
    chain i.account
      (λ a. chain a.login (λ login. chain a.type (λ type. some (row app login type now))))))

module _ {Database : Type 0} (db : DbClient Database) where
  abbrev pub store_row : Text → ℕ → Option InstallationRow → Act Database WebhookResult
  store_row action id none =
      pure (ignored (text "installation.created/unsuspend missing required fields"))
  store_row action id (some r) = do
    write (λ d. db.upsert_installation d id r)
    pure (installation action id)

  unfoldable pub dispatch_installation : Text → ℕ → EventBody → ℕ → Act Database WebhookResult
  unfolding text_eq installation_row
  dispatch_installation action id b now =
      if text_eq action (text "created") || text_eq action (text "unsuspend")
      then store_row action id (installation_row b now)
      else if text_eq action (text "suspend")
      then (do write (λ d. db.suspend_installation d id now); pure (installation action id))
      else if text_eq action (text "deleted")
      then (do write (λ d. db.delete_installation d id); pure (installation action id))
      else pure (noop (text "installation." ++ (action ++ text " acknowledged")))

  abbrev pub on_installation : Option ℕ → EventBody → ℕ → Act Database WebhookResult
  on_installation none b now = pure (ignored (text "installation event missing installation.id"))
  on_installation (some id) b now =
      dispatch_installation (or_default b.action (text "unknown")) id b now

  -- an absent action is none of the four texts, and is written as `unknown`
  unfoldable pub handle_installation_event : EventBody → ℕ → Act Database WebhookResult
  handle_installation_event b now = on_installation (installation_id b) b now

-- the signal of a reaction and the comment or review that it is on
unfoldable pub classify_reaction_payload : EventBody → Option (FeedbackCommandKind × ℕ)
unfolding text_eq
classify_reaction_payload b =
    let content = or_default b.reaction_content [] in
    if text_eq (or_default b.action []) (text "created")
    then chain (or_other (comment_id b) b.review_id) (λ id.
      if text_eq content (text "+1")
      then some (thumbs_up, id)
      else if text_eq content (text "-1")
      then some (thumbs_down, id)
      else none)
    else none

abbrev pub outcome_of : FeedbackAuthzResult → FeedbackCommandOutcome
outcome_of allowed = recorded
outcome_of (denied r) = FeedbackCommandOutcome.unauthorized

module _ {Database : Type 0} (deps : WebhookHandlerDeps Database) where
  -- what is counted is what is returned
  abbrev counted : FeedbackCommand → FeedbackCommandOutcome → ℕ → Act Database WebhookResult
  counted fb outcome n = do
    count (record { kind = fb.kind; outcome = outcome })
    pure (feedback_command fb.kind outcome fb.fp_prefix n)

  abbrev pub judged : FeedbackCommand → ℕ → Option AuthzInput → Act Database WebhookResult
  judged fb n none = counted fb unresolved n
  judged fb n (some i) = do
    authz ← ask_authz deps deps.check_authz i
    counted fb (outcome_of authz) n

  -- the number, the owner and the name are all required; the user may be absent
  unfoldable pub handle_feedback_command : FeedbackCommand → EventBody → Act Database WebhookResult
  handle_feedback_command fb b = judged fb (or_default (pr_number b) 0) (
      chain (pr_number b) (λ n. chain (owner b) (λ o.
        chain (repo b)
          (λ r. some (record { owner = o; repo = r; username = or_default (username b) [] })))))
