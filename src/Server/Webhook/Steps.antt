-- ===== src/Server/Webhook/Steps.antt =====
-- The steps of the webhook handler, each within the relation `Moves`.
use review_agent.Common.{
  ℕ, ◌≡◌, inl, inr, refl, Bool, true, false, Option, none, some, has, Text, text, text_eq, Result,
  ok, err,
}
use review_agent.Core.Queue.{JobMessage}
use review_agent.Server.ParseCommand.{FeedbackCommand}
use review_agent.Server.ParseCommand.Guards.{IsScope}
use review_agent.Server.Webhook.Bodies.{EventBody}
use review_agent.Server.Webhook.Deps.{
  DbClient, AuthzInput, FeedbackAuthzResult, ConversationHandlerInput, FeedbackCommandOutcome,
  WebhookHandlerDeps, Language, FeedbackMetric, World, Act, ◌>>=◌, stored, count,
}
use review_agent.Server.Webhook.Shared.{
  date, delivered, enqueue, enqueue_job, ask_authz, check_input, authz_input, check_command_authz,
  place, build_pr_id, read_review_state_row, debounce_of, check_debounce,
}
use review_agent.Server.Webhook.Comments.{set_paused_at, set_paused, unless_debounced, review_once}
use review_agent.Server.Webhook.Events.{outcome_of, judged, handle_feedback_command}
use review_agent.Server.Webhook.Frames.{
  Within, Returns, Moves, Moves-IsFrame, >>=-Within, Extends-refl, Extends-one,
}
use review_agent.Server.Webhook.Jobs.{IsJob, build_job_message_with_scope-IsJob}

module _ {D : Type 0} (J : JobMessage → Type 0) (C : ConversationHandlerInput → Type 0)
    (W : Type 0) where
  pub still : (s : World D) → Moves J C W s s
  still s = (Moves-IsFrame J C W).still s

  -- one step after another
  pub then-Within :
      {A B : Type 0} (m : Act D A) (f : A → Act D B)
      → Within (Moves J C W) m
      → ((a : A) → Returns m a → Within (Moves J C W) (f a))
      → Within (Moves J C W) (m >>= f)
  then-Within m f = >>=-Within (Moves J C W) (Moves-IsFrame J C W) m f

  pub stored-Within : W → (r : Result Text D) (s : World D) → Moves J C W s (stored r s).1
  stored-Within w (ok d) s = record {
    queue = Extends-refl J s.queue;
    conversations = Extends-refl C s.conversations;
    database = inr w;
  }
  stored-Within w (err e) s = still s

  pub count-Within : (m : FeedbackMetric) → Within {D = D} (Moves J C W) (count m)
  count-Within m s = record {
    queue = Extends-refl J s.queue;
    conversations = Extends-refl C s.conversations;
    database = inl refl;
  }

  module _ (deps : WebhookHandlerDeps D) where
    pub date-Within : Within (Moves J C W) (date deps)
    date-Within s = record {
      queue = Extends-refl J s.queue;
      conversations = Extends-refl C s.conversations;
      database = inl refl;
    }

    delivered-Within :
        (m : JobMessage) (r : Result Text Text) (s : World D)
        → J m
        → Moves J C W s (delivered deps m r s).1
    delivered-Within m (ok id) s h = record {
      queue = Extends-one J s.queue m h;
      conversations = Extends-refl C s.conversations;
      database = inl refl;
    }
    delivered-Within m (err e) s h = still s

    pub enqueue_job-Within :
        (o : Option JobMessage)
        → ((m : JobMessage) → o ≡ some m → J m)
        → Within (Moves J C W) (enqueue_job deps o)
    unfolding enqueue_job
    enqueue_job-Within none h = still
    enqueue_job-Within (some m) h =
        then-Within (enqueue deps m) _ (λ s. delivered-Within m (deps.enqueue m) s (h m refl))
          (λ id r. still)

    pub ask_authz-Within :
        (c : Option (AuthzInput → Result Text FeedbackAuthzResult)) (i : AuthzInput)
        → Within (Moves J C W) (ask_authz deps c i)
    ask_authz-Within none i = still
    ask_authz-Within (some check) i = still

    check_input-Within : (o : Option AuthzInput) → Within (Moves J C W) (check_input deps o)
    check_input-Within none = still
    check_input-Within (some i) = ask_authz-Within deps.check_authz i

    pub check_command_authz-Within :
        (b : EventBody) → Within (Moves J C W) (check_command_authz deps b)
    unfolding check_command_authz
    check_command_authz-Within b = check_input-Within (authz_input b)

    debounce_of-Within :
        (o : Option (DbClient D × ℕ × Text)) (now : ℕ)
        → Within (Moves J C W) (debounce_of deps o now)
    unfolding read_review_state_row
    debounce_of-Within none now = still
    debounce_of-Within (some (db, id, pr_id)) now = still

    pub check_debounce-Within :
        (b : EventBody) (now : ℕ) → Within (Moves J C W) (check_debounce deps b now)
    unfolding check_debounce
    check_debounce-Within b now = debounce_of-Within (place deps b (build_pr_id b)) now

    judged-Within :
        (fb : FeedbackCommand) (n : ℕ) (o : Option AuthzInput)
        → Within (Moves J C W) (judged deps fb n o)
    judged-Within fb n none =
        count-Within (record { kind = fb.kind; outcome = FeedbackCommandOutcome.unresolved })
    judged-Within fb n (some i) =
        then-Within (ask_authz deps deps.check_authz i) _ (ask_authz-Within deps.check_authz i)
          (λ a r. count-Within (record { kind = fb.kind; outcome = outcome_of a }))

    -- a `/feedback` command only counts
    pub handle_feedback_command-Within :
        (fb : FeedbackCommand) (b : EventBody)
        → Within (Moves J C W) (handle_feedback_command deps fb b)
    unfolding handle_feedback_command
    handle_feedback_command-Within fb b = judged-Within fb _ _

    module _ (lang : Language) (b : EventBody) where
      set_paused_at-Within :
          W
          → (paused : Bool) (now : ℕ) (o : Option (DbClient D × ℕ × Text))
          → Within (Moves J C W) (set_paused_at lang deps paused now o)
      set_paused_at-Within w paused now none = still
      set_paused_at-Within w paused now (some (db, id, pr_id)) =
          λ s. stored-Within w (db.update_review_state s.database id pr_id paused now) s

      pub set_paused-Within :
          W → (paused : Bool) (now : ℕ) → Within (Moves J C W) (set_paused lang deps paused b now)
      unfolding set_paused
      set_paused-Within w paused now =
          set_paused_at-Within w paused now (place deps b (build_pr_id b))

      unless_debounced-Within :
          ((m : JobMessage) → IsJob b m → J m)
          → (recent : Bool) (scope : Option Text) (later : Act D ℕ) → IsScope scope
          → Within (Moves J C W) later
          → Within (Moves J C W) (unless_debounced lang deps recent scope b later)
      unfolding has text_eq
      unless_debounced-Within j true scope later h l = still
      unless_debounced-Within j false scope later h l = then-Within later _ l (λ t r.
          enqueue_job-Within _ (λ m e. j m (
            build_job_message_with_scope-IsJob lang b (text "comment.command") t scope refl h m e)))

      -- a review on command sends a job at most
      pub review_once-Within :
          ((m : JobMessage) → IsJob b m → J m)
          → (scope : Option Text) (now : ℕ) (later : Act D ℕ) → IsScope scope
          → Within (Moves J C W) later
          → Within (Moves J C W) (review_once lang deps scope b now later)
      unfolding review_once
      review_once-Within j scope now later h l =
          then-Within (check_debounce deps b now) _ (check_debounce-Within b now)
            (λ recent r. unless_debounced-Within j recent scope later h l)
