-- ===== src/Server/Codecommit/Allowed.antt =====
-- packages/server/src/handlers/codecommit-webhook.ts: what a delivery may bring about.
use review_agent.Common.{
  ℕ, ◌≡◌, ◌≢◌, refl, Bool, true, false, ◌⊎◌, inl, inr, Option, none, some, or_default, List, [],
  ◌∷◌, ◌++◌, Text, text, text_eq, has, Result, ok, err, Bool-cases, arith, if◌then◌else◌,
}
use review_agent.Core.Queue.{JobMessage, codecommit, triggers}
use review_agent.Server.ParseCommand.{FeedbackCommand, parse_feedback_command}
use review_agent.Server.Webhook.Deps.{
  FeedbackCommandOutcome, recorded, FeedbackMetric, FeedbackAuthzResult, allowed, denied,
}
use review_agent.Server.Sns.{
  SnsMessage, SnsMessageType, notification, subscription_confirmation, unsubscribe_confirmation,
}
use review_agent.Server.Codecommit.Event.{
  CodecommitEvent, extract_codecommit_event, pick_repository_name, pick_pr_number, job_of,
  build_codecommit_job_message, is_account,
}
use review_agent.Server.Codecommit.{
  CodecommitWebhookDeps, CodecommitWebhookResult, Outside, Reply, ignoring, allowlist_of,
  check_code_commit_feedback_authz, is_allowed_topic, topics, sent, send, outcome_of, resolved,
  handle_codecommit_feedback_command, confirmed, confirm, commanded, commented, comment_text,
  dispatch, with_account, named, extracted, notified, by_type, handle_codecommit_webhook,
}

module _ (deps : CodecommitWebhookDeps) where
  -- the event and the account in the message of a delivery
  abbrev pub Carries : SnsMessage → CodecommitEvent → Option Text → Type 0
  Carries e ev account =
      (t : Text) × (e.type_of ≡ notification)
      × (e.message ≡ some t)
      × (extract_codecommit_event (deps.parse_json t) ≡ some (ev, account))

  -- a message for the pull request of an event, under the account of its delivery
  pub record IsJobOf (ev : CodecommitEvent) (account : Text) (m : JobMessage) : Type 0 where
    pub platform : m.pr_ref.platform ≡ codecommit
    pub no_owner : m.pr_ref.owner ≡ []
    pub repository : pick_repository_name ev ≡ some m.pr_ref.repo
    pub pull_request : pick_pr_number ev ≡ some m.pr_ref.number
    pub installation : m.installation_id ≡ account
    pub trigger : has triggers m.triggered_by ≡ true

  abbrev pub Listed : CodecommitEvent → FeedbackCommandOutcome → Type 0
  Listed ev recorded = has (allowlist_of deps) (or_default ev.principal_id []) ≡ true
  Listed ev _ = Unit

  module _ (w w' : Outside) where
    abbrev pub Confirms : SnsMessage → Type 0
    Confirms e =
        (url : Text) × (e.subscribe_url ≡ some url)
        × (e.type_of ≢ notification)
        × (w' ≡ record w { fetched = w.fetched ++ (url ∷ []) })

    abbrev pub Sends : CodecommitEvent → Text → Type 0
    Sends ev account =
        (m : JobMessage) × IsJobOf ev account m
        × (is_account account ≡ true)
        × (w' ≡ record w { queue = w.queue ++ (m ∷ []) })

    abbrev pub Counts : CodecommitEvent → Text → Type 0
    Counts ev account =
        (k : FeedbackMetric) × Listed ev k.outcome
        × (is_account account ≡ true)
        × (w' ≡ record w { metrics = w.metrics ++ (k ∷ []) })

    abbrev pub Handles : CodecommitEvent → Text → Type 0
    Handles ev account = (w' ≡ w) ⊎ (Sends ev account ⊎ Counts ev account)

    -- nothing, or one effect of a delivery on a listed topic
    abbrev pub IsAllowed : SnsMessage → Type 0
    IsAllowed e =
        (w' ≡ w)
        ⊎ ((has (topics deps) e.topic_arn ≡ true)
            × (Confirms e
                ⊎ ((ev : CodecommitEvent) × (account : Text) × Carries e ev (some account)
                    × (Sends ev account ⊎ Counts ev account))))

  module _ (w : Outside) (ev : CodecommitEvent) (account : Text)
      (ok_account : is_account account ≡ true) where
    sent-Handles :
        (m : JobMessage) (r : Result Text Text)
        → IsJobOf ev account m
        → Handles w (sent deps m w r).1 ev account
    sent-Handles m (err e) j = inl refl
    sent-Handles m (ok id) j = inr (inl (m, j, ok_account, refl))

    job_of-Handles :
        (trigger : Text) (o : Option Text) (n : Option ℕ)
        → has triggers trigger ≡ true
        → pick_repository_name ev ≡ o
        → pick_pr_number ev ≡ n
        → Handles w
            (send deps w (job_of deps.language ev trigger deps.now account o n)).1
            ev
            account
    job_of-Handles trigger none n t p q = inl refl
    job_of-Handles trigger (some repo) none t p q = inl refl
    job_of-Handles trigger (some repo) (some number) t p q =
        sent-Handles _ (deps.enqueue _) (record {
          platform = refl;
          no_owner = refl;
          repository = p;
          pull_request = q;
          installation = refl;
          trigger = t;
        })

    send-Handles :
        (trigger : Text)
        → has triggers trigger ≡ true
        → Handles w
            (send deps w (build_codecommit_job_message deps.language ev trigger deps.now account)).1
            ev
            account
    unfolding build_codecommit_job_message
    send-Handles trigger t = job_of-Handles trigger _ _ t refl refl

    check-Listed :
        (allowlist : List Text) (principal : Text)
        → check_code_commit_feedback_authz allowlist principal ≡ allowed
        → has allowlist principal ≡ true
    unfolding check_code_commit_feedback_authz has
    check-Listed [] principal h = cc
    check-Listed (t ∷ allowlist) principal h = ground arith

    outcome-Listed :
        (r : FeedbackAuthzResult)
        → check_code_commit_feedback_authz (allowlist_of deps) (or_default ev.principal_id []) ≡ r
        → Listed ev (outcome_of deps r)
    outcome-Listed allowed h = check-Listed _ _ h
    outcome-Listed (denied reason) h = tt

    resolved-Handles :
        (fb : FeedbackCommand) (o : Option Text) (n : Option ℕ)
        → Handles w (resolved deps fb (or_default ev.principal_id []) w o n).1 ev account
    resolved-Handles fb none n = inr (inr (_, tt, ok_account, refl))
    resolved-Handles fb (some repo) none = inr (inr (_, tt, ok_account, refl))
    resolved-Handles fb (some repo) (some number) =
        inr (inr (_, outcome-Listed _ refl, ok_account, refl))

    commanded-Handles : (c : Option Text) → Handles w (commanded deps ev account w c).1 ev account
    commanded-Handles none = inl refl
    commanded-Handles (some []) = inl refl
    commanded-Handles (some (c ∷ command)) =
        elim (Bool-cases (text_eq (c ∷ command) (text "review"))) [
          | inl e ↦ rw e (send-Handles (text "comment.command") known)
          | inr e ↦ rw e (inl refl)
        ]
      where
        known : has triggers (text "comment.command") ≡ true
        known = unfold has text_eq in refl

    commented-Handles :
        (body : Text) (fb : Option FeedbackCommand)
        → Handles w (commented deps ev account body w fb).1 ev account
    unfolding handle_codecommit_feedback_command
    commented-Handles body none = commanded-Handles _
    commented-Handles body (some fb) = resolved-Handles fb _ _

    job_reply : Text → Reply
    job_reply trigger =
        send deps w (build_codecommit_job_message deps.language ev trigger deps.now account)

    cases_Handles :
        (a b c : Bool) (z u : Reply)
        → Handles w z.1 ev account
        → Handles w u.1 ev account
        → Handles w
            (if a
              then job_reply (text "pull_request.opened")
              else if b
              then job_reply (text "pull_request.synchronize")
              else if c
              then z
              else u).1
            ev
            account
    unfolding job_reply
    cases_Handles true b c z u p q =
        send-Handles (text "pull_request.opened") (unfold has text_eq in refl)
    cases_Handles false true c z u p q =
        send-Handles (text "pull_request.synchronize") (unfold has text_eq in refl)
    cases_Handles false false true z u p q = p
    cases_Handles false false false z u p q = q

    dispatch-Handles : (name : Text) → Handles w (dispatch deps ev name account w).1 ev account
    unfolding dispatch job_reply
    dispatch-Handles name =
        let body = comment_text deps ev in
        let fb = parse_feedback_command deps.language.to_lower_case body in
        cases_Handles (text_eq name (text "pullRequestCreated"))
          (has
            (text "pullRequestSourceBranchUpdated" ∷ text "pullRequestSourceReferenceUpdated" ∷ [])
            name)
          (text_eq name (text "commentOnPullRequest")) (commented deps ev account body w fb)
          (ignoring w (text "unhandled codecommit event '" ++ (name ++ text "'")))
          (commented-Handles body fb) (inl refl)

  is_allowed_topic-Listed :
      (e : SnsMessage) (l : List Text) → is_allowed_topic e l ≡ true → has l e.topic_arn ≡ true
  unfolding is_allowed_topic
  is_allowed_topic-Listed e [] h = cc
  is_allowed_topic-Listed e (t ∷ l) h = h

  module _ (w : Outside) (e : SnsMessage) (topic : has (topics deps) e.topic_arn ≡ true) where
    of_Handles :
        (w' : Outside) (ev : CodecommitEvent) (account : Text)
        → Carries e ev (some account)
        → Handles w w' ev account
        → IsAllowed w w' e
    of_Handles w' ev account c (inl same) = inl same
    of_Handles w' ev account c (inr effect) = inr (topic, inr (ev, account, c, effect))

    with_account-IsAllowed :
        (ev : CodecommitEvent) (name : Text) (account : Option Text)
        → Carries e ev account
        → IsAllowed w (with_account deps ev name w account).1 e
    with_account-IsAllowed ev name none c = inl refl
    with_account-IsAllowed ev name (some account) c = elim (Bool-cases (is_account account)) [
      | inl yes_account ↦
          rw yes_account
            (of_Handles _ ev account c (dispatch-Handles w ev account yes_account name))
      | inr other ↦ rw other (inl refl)
    ]

    named-IsAllowed :
        (ev : CodecommitEvent) (account name : Option Text)
        → Carries e ev account
        → IsAllowed w (named deps ev account w name).1 e
    named-IsAllowed ev account none c = inl refl
    named-IsAllowed ev account (some name) c = with_account-IsAllowed ev name account c

    extracted-IsAllowed :
        (t : Text) (r : Option (CodecommitEvent × Option Text))
        → e.type_of ≡ notification
        → e.message ≡ some t
        → extract_codecommit_event (deps.parse_json t) ≡ r
        → IsAllowed w (extracted deps w r).1 e
    extracted-IsAllowed t none n h p = inl refl
    extracted-IsAllowed t (some (ev, account)) n h p =
        named-IsAllowed ev account ev.event (t, n, h, p)

    notified-IsAllowed :
        (o : Option Text)
        → e.type_of ≡ notification
        → e.message ≡ o
        → IsAllowed w (notified deps w o).1 e
    notified-IsAllowed none n h = inl refl
    notified-IsAllowed (some []) n h = inl refl
    notified-IsAllowed (some (c ∷ t)) n h = extracted-IsAllowed (c ∷ t) _ n h refl

    confirmed_at : (u : Outside) (r : Result Text (Bool × ℕ)) → (confirmed deps u r).1 ≡ u
    confirmed_at u (err x) = refl
    confirmed_at u (ok (true, status)) = refl
    confirmed_at u (ok (false, status)) = refl

    confirm-IsAllowed :
        (o : Option Text)
        → e.type_of ≢ notification
        → e.subscribe_url ≡ o
        → IsAllowed w (confirm deps w o).1 e
    confirm-IsAllowed none n h = inl refl
    confirm-IsAllowed (some []) n h = inl refl
    confirm-IsAllowed (some (c ∷ url)) n h = inr (topic, inl (c ∷ url, h, n, confirmed_at _ _))

    by_type-IsAllowed : (t : SnsMessageType) → e.type_of ≡ t → IsAllowed w (by_type deps e w t).1 e
    by_type-IsAllowed notification h = notified-IsAllowed _ h refl
    by_type-IsAllowed subscription_confirmation h = confirm-IsAllowed _ (λ q. cc) refl
    by_type-IsAllowed unsubscribe_confirmation h = confirm-IsAllowed _ (λ q. cc) refl

  gate-IsAllowed :
      (w : Outside) (e : SnsMessage) (r : Result Text CodecommitWebhookResult) (b : Bool)
      → is_allowed_topic e (topics deps) ≡ b
      → IsAllowed w (if b then by_type deps e w e.type_of else (r, w)).1 e
  gate-IsAllowed w e r true listed =
      by_type-IsAllowed w e (is_allowed_topic-Listed e _ listed) e.type_of refl
  gate-IsAllowed w e r false unlisted = inl refl

  -- A delivery changes nothing unless its topic is listed. Then at most one thing is done: the
  -- address of a confirmation is fetched; or, for the event that a notification carries with an
  -- account of digits, either one message is sent, for the pull request of the event under that
  -- account and with a known trigger, or one command is counted, as recorded only if the principal
  -- of the event is listed.
  pub handle_codecommit_webhook-IsAllowed :
      (e : SnsMessage) (w : Outside) → IsAllowed w (handle_codecommit_webhook deps e w).1 e
  unfolding handle_codecommit_webhook
  handle_codecommit_webhook-IsAllowed e w = gate-IsAllowed w e _ _ refl
