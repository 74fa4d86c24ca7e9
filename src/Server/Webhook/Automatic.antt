-- ===== src/Server/Webhook/Automatic.antt =====
-- What `pull_request` and `installation` events do.
use review_agent.Common.{
  ℕ, ◌≡◌, inl, inr, refl, ◌++◌, Bool, true, false, ◌||◌, Option, none, some, or_default, Bool-cases,
  [], ◌∷◌, has, map, Text, text, text_eq, arith,
}
use review_agent.Core.Queue.{JobMessage, triggers}
use review_agent.Server.Webhook.Bodies.{EventBody, installation_id}
use review_agent.Server.Webhook.Deps.{
  InstallationRow, DbClient, ConversationHandlerInput, TriggerConfig, WebhookHandlerDeps, Language,
  ◌>>=◌, write,
}
use review_agent.Server.Webhook.Shared.{
  date, enqueue_job, build_job_message, read_paused_state, read_review_state_row, place,
}
use review_agent.Server.Webhook.Events.{
  store_row, installation_row, dispatch_installation, on_installation, handle_installation_event,
}
use review_agent.Server.Webhook.Pushes.{
  enqueue_pr_actions, push_triggered_actions, is_marked, is_draft, pull_request_id, has_skip_label,
  label_job, handle_labeled, paused_at, unless_paused, auto_review, handle_push, handle_action,
  on_action, handle_pull_request,
}
use review_agent.Server.Webhook.Frames.{Within, Moves}
use review_agent.Server.Webhook.Jobs.{IsJob, build_job_message_with_scope-IsJob}
use review_agent.Server.Webhook.Steps.{
  still, then-Within, date-Within, enqueue_job-Within, stored-Within,
}

pub has-triggers :
    (action : Text)
    → has enqueue_pr_actions action ≡ true
    → has triggers (text "pull_request." ++ action) ≡ true
unfolding has text_eq
has-triggers action h = ground arith

module _ {D : Type 0} (J : JobMessage → Type 0) (C : ConversationHandlerInput → Type 0) (W : Type 0)
    (lang : Language) (deps : WebhookHandlerDeps D) (b : EventBody) where
  module _ (each : (m : JobMessage) → IsJob b m → J m) where
    sent-Within :
        (trigger : Text)
        → has triggers trigger ≡ true
        → Within
            (Moves J C W)
            (date deps >>= λ t. enqueue_job deps (build_job_message lang b trigger t))
    unfolding build_job_message
    sent-Within trigger h =
        then-Within J C W (date deps) (λ t. enqueue_job deps (build_job_message lang b trigger t))
          (date-Within J C W deps)
          (λ t r.
            enqueue_job-Within J C W deps _
              (λ m e. each m (build_job_message_with_scope-IsJob lang b trigger t none h tt m e)))

    label_job-Within :
        (config : TriggerConfig) → Within (Moves J C W) (label_job lang deps config b)
    unfolding has text_eq
    label_job-Within config =
        elim (Bool-cases (
          has (map lang.to_lower_case config.trigger_labels)
            (lang.to_lower_case (or_default b.label_name [])))) [
              | inl e ↦ rw e (sent-Within (text "comment.command") refl)
              | inr e ↦ rw e (still J C W)
            ]

    handle_labeled-Within :
        (config : Option TriggerConfig) → Within (Moves J C W) (handle_labeled lang deps config b)
    unfolding handle_labeled
    handle_labeled-Within none = still J C W
    handle_labeled-Within (some config) = label_job-Within config

    paused_at-Within :
        (o : Option (DbClient D × ℕ × Text)) → Within (Moves J C W) (paused_at lang deps o)
    unfolding read_paused_state read_review_state_row
    paused_at-Within none = still J C W
    paused_at-Within (some (db, id, pr_id)) = still J C W

    module _ (action : Text) (h : has enqueue_pr_actions action ≡ true) where
      auto_review-Within : Within (Moves J C W) (auto_review lang deps action b)
      unfolding auto_review
      auto_review-Within = sent-Within (text "pull_request." ++ action) (has-triggers action h)

      unless_paused-Within :
          (paused : Bool) → Within (Moves J C W) (unless_paused lang deps action b paused)
      unless_paused-Within true = still J C W
      unless_paused-Within false = auto_review-Within

      handle_push-Within : Within (Moves J C W) (handle_push lang deps action b)
      unfolding handle_push
      handle_push-Within = elim (Bool-cases (is_marked b.pull_request)) [
        | inl e ↦ rw e (still J C W)
        | inr e ↦ rw e (elim (Bool-cases (has_skip_label lang deps b)) [
          | inl f ↦ rw f (still J C W)
          | inr f ↦ rw f (
              then-Within J C W (paused_at lang deps (place deps b (pull_request_id b))) _
                (paused_at-Within (place deps b (pull_request_id b)))
                (λ paused r. unless_paused-Within paused))
        ])
      ]

    handle_action-Within : (action : Text) → Within (Moves J C W) (handle_action lang deps action b)
    unfolding handle_action
    handle_action-Within action = elim (Bool-cases (text_eq action (text "labeled"))) [
      | inl e ↦ rw e (handle_labeled-Within deps.trigger_config)
      | inr e ↦ rw e (elim (Bool-cases (has enqueue_pr_actions action)) [
        | inr f ↦ rw f (still J C W)
        | inl f ↦ rw f (elim (Bool-cases (is_draft b.pull_request)) [
          | inl g ↦ rw g (still J C W)
          | inr g ↦ rw g (elim (Bool-cases (has push_triggered_actions action)) [
            | inl k ↦ rw k (handle_push-Within action f)
            | inr k ↦ rw k (auto_review-Within action f)
          ])
        ])
      ])
    ]

    present-Within : (o : Option Text) → Within (Moves J C W) (on_action lang deps o b)
    present-Within none = still J C W
    present-Within (some []) = still J C W
    present-Within (some (c ∷ action)) = handle_action-Within (c ∷ action)

    pub handle_pull_request-Within : Within (Moves J C W) (handle_pull_request lang deps b)
    unfolding handle_pull_request
    handle_pull_request-Within = present-Within b.action

  module _ (db : DbClient D) (w : W) where
    store_row-Within :
        (action : Text) (id : ℕ) (r : Option InstallationRow)
        → Within (Moves J C W) (store_row db action id r)
    store_row-Within action id none = still J C W
    store_row-Within action id (some r) =
        then-Within J C W (write (λ d. db.upsert_installation d id r)) _
          (λ s. stored-Within J C W w (db.upsert_installation s.database id r) s)
          (λ u q. still J C W)

    dispatch_installation-Within :
        (action : Text) (id now : ℕ)
        → Within (Moves J C W) (dispatch_installation db action id b now)
    unfolding dispatch_installation
    dispatch_installation-Within action id now =
        elim (Bool-cases (text_eq action (text "created") || text_eq action (text "unsuspend"))) [
          | inl e ↦ rw e (store_row-Within action id (installation_row b now))
          | inr e ↦ rw e (elim (Bool-cases (text_eq action (text "suspend"))) [
            | inl f ↦ rw f (
                then-Within J C W (write (λ d. db.suspend_installation d id now)) _
                  (λ s. stored-Within J C W w (db.suspend_installation s.database id now) s)
                  (λ u q. still J C W))
            | inr f ↦ rw f (elim (Bool-cases (text_eq action (text "deleted"))) [
              | inl g ↦ rw g (
                  then-Within J C W (write (λ d. db.delete_installation d id)) _
                    (λ s. stored-Within J C W w (db.delete_installation s.database id) s)
                    (λ u q. still J C W))
              | inr g ↦ rw g (still J C W)
            ])
          ])
        ]

    on_installation-Within :
        (o : Option ℕ) (now : ℕ) → Within (Moves J C W) (on_installation db o b now)
    on_installation-Within none now = still J C W
    on_installation-Within (some id) now =
        dispatch_installation-Within (or_default b.action (text "unknown")) id now

    pub handle_installation_event-Within :
        (now : ℕ) → Within (Moves J C W) (handle_installation_event db b now)
    unfolding handle_installation_event
    handle_installation_event-Within now = on_installation-Within (installation_id b) now
