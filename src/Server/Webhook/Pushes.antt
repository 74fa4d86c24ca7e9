-- ===== src/Server/Webhook/Pushes.antt =====
-- packages/server/src/handlers/webhook.ts: `pull_request` events.
use review_agent.Common.{
  ℕ, Bool, true, false, ◌||◌, not, Option, none, some, or_default, List, [], ◌∷◌, ◌++◌, map, filter,
  any, has, Text, text, text_eq, is_empty, if◌then◌else◌,
}
use review_agent.Server.Webhook.Bodies.{PullRequest, EventBody, chain, positive, owner, repo}
use review_agent.Server.Webhook.Deps.{
  DbClient, TriggerConfig, WebhookHandlerDeps, Language, Act, ◌>>=◌, pure,
}
use review_agent.Server.Webhook.Shared.{
  WebhookResult, ignored, pr_id_of, has_skip_marker, build_job_message, date, enqueue_job,
  read_paused_state, place,
}

abbrev pub enqueue_pr_actions : List Text
enqueue_pr_actions =
    text "opened" ∷ text "synchronize" ∷ text "reopened" ∷ text "ready_for_review" ∷ []

abbrev pub push_triggered_actions : List Text
push_triggered_actions = text "opened" ∷ text "synchronize" ∷ text "reopened" ∷ []

-- whether the `[skip review]` marker stands in the title or in the body
abbrev pub is_marked : Option PullRequest → Bool
is_marked none = has_skip_marker [] || has_skip_marker []
is_marked (some p) =
    has_skip_marker (or_default p.title []) || has_skip_marker (or_default p.body [])

abbrev pub is_draft : Option PullRequest → Bool
is_draft none = false
is_draft (some p) = p.draft

abbrev labels : Option PullRequest → List (Option Text)
labels none = []
labels (some p) = p.labels

abbrev pub pull_request_id : EventBody → Option Text
pull_request_id b = chain (owner b) (λ o.
    chain (repo b)
      (λ r. chain (positive (chain b.pull_request (λ p. p.number))) (λ n. some (pr_id_of o r n))))

module _ {Database : Type 0} (lang : Language) (deps : WebhookHandlerDeps Database) where
  pr_labels : EventBody → List Text
  pr_labels b =
      filter (λ n. not (is_empty n))
        (map (λ n. lang.to_lower_case (or_default n [])) (labels b.pull_request))

  abbrev skips : Option TriggerConfig → EventBody → Bool
  skips none b = false
  skips (some config) b = any (λ l. has (pr_labels b) l) (map lang.to_lower_case config.skip_labels)

  -- whether the pull request carries a skip label
  unfoldable pub has_skip_label : EventBody → Bool
  unfolding has pr_labels
  has_skip_label b = skips deps.trigger_config b

  abbrev pub label_job : TriggerConfig → EventBody → Act Database WebhookResult
  label_job config b =
      let applied = lang.to_lower_case (or_default b.label_name []) in
      if has (map lang.to_lower_case config.trigger_labels) applied
      then (date deps >>= λ t.
          enqueue_job deps (build_job_message lang b (text "comment.command") t))
      else pure (ignored (text "label '" ++ (applied ++ text "' not in trigger_labels")))

  unfoldable pub handle_labeled : Option TriggerConfig → EventBody → Act Database WebhookResult
  unfolding has
  handle_labeled none b = pure (ignored (text "pull_request action 'labeled'"))
  handle_labeled (some config) b = label_job config b

  abbrev pub paused_at : Option (DbClient Database × ℕ × Text) → Act Database Bool
  paused_at none = pure false
  paused_at (some (db, id, pr_id)) = read_paused_state db id pr_id

  -- the message of an automatic review
  unfoldable pub auto_review : Text → EventBody → Act Database WebhookResult
  auto_review action b = date deps >>= λ t.
      enqueue_job deps (build_job_message lang b (text "pull_request." ++ action) t)

  abbrev pub unless_paused : Text → EventBody → Bool → Act Database WebhookResult
  unless_paused action b true = pure (ignored (text "PR is paused (skip)"))
  unless_paused action b false = auto_review action b

  -- the three guards of the actions that a push triggers
  unfoldable pub handle_push : Text → EventBody → Act Database WebhookResult
  handle_push action b =
      if is_marked b.pull_request
      then pure (ignored (text "[skip review] marker in PR title/body"))
      else if has_skip_label b
      then pure (ignored (text "PR carries a skip_label"))
      else (paused_at (place deps b (pull_request_id b)) >>= λ paused.
          unless_paused action b paused)

  unfoldable pub handle_action : Text → EventBody → Act Database WebhookResult
  unfolding text_eq has
  handle_action action b =
      if text_eq action (text "labeled")
      then handle_labeled deps.trigger_config b
      else if not (has enqueue_pr_actions action)
      then pure (ignored (text "pull_request action '" ++ (action ++ text "'")))
      else if is_draft b.pull_request
      then pure (ignored (text "draft PR"))
      else if has push_triggered_actions action
      then handle_push action b
      else auto_review action b

  -- an absent and an empty action are refused alike, with different texts
  abbrev pub on_action : Option Text → EventBody → Act Database WebhookResult
  on_action none b = pure (ignored (text "pull_request action 'unknown'"))
  on_action (some []) b = pure (ignored (text "pull_request action ''"))
  on_action (some (c ∷ action)) b = handle_action (c ∷ action) b

  unfoldable pub handle_pull_request : EventBody → Act Database WebhookResult
  handle_pull_request b = on_action b.action b
