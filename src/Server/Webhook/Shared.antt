-- ===== src/Server/Webhook/Shared.antt =====
-- packages/server/src/handlers/webhook.ts: the helpers that the handlers share.
use review_agent.Common.{
  ℕ, ◌+◌, Bool, false, ◌&&◌, Option, none, some, or_default, [], ◌∷◌, ◌++◌, map, Text, text,
  includes, decimal, Result, ok, err, leb, ltb, if◌then◌else◌,
}
use review_agent.Core.Queue.{github, JobMessage}
use review_agent.Server.ParseCommand.{FeedbackCommandKind}
use review_agent.Server.Webhook.Bodies.{
  EventBody, chain, truthy, positive, installation_id, owner, repo, pr_number, username,
}
use review_agent.Server.Webhook.Deps.{
  ReviewStateRow, DbClient, AuthzInput, FeedbackAuthzResult, denied, ConversationReplyOutcome,
  FeedbackCommandOutcome, WebhookHandlerDeps, Language, World, Act, ◌>>=◌, pure, answer,
}

pub data WebhookResult : Type 0 where
  ignored : (reason : Text) → WebhookResult
  enqueued : (message_id : Text) → WebhookResult
  noop : (reason : Text) → WebhookResult
  installation : (action : Text) → (id : ℕ) → WebhookResult
  feedback : FeedbackCommandKind → (comment_id : ℕ) → WebhookResult
  feedback_command :
      FeedbackCommandKind → FeedbackCommandOutcome → Option Text → (pr_number : ℕ) → WebhookResult
  conversation_reply : ConversationReplyOutcome → (comment_id pr_number : ℕ) → WebhookResult

abbrev pub pr_id_of : Text → Text → ℕ → Text
pr_id_of o r n = o ++ ((b'/' ∷ r) ++ (b'#' ∷ decimal n))

abbrev pub build_pr_id : EventBody → Option Text
build_pr_id b =
    chain (owner b)
      (λ o. chain (repo b) (λ r. chain (positive (pr_number b)) (λ n. some (pr_id_of o r n))))

abbrev ascii_lower : ℕ → ℕ
ascii_lower c = if leb b'A' c && leb c b'Z' then c + 32 else c

-- `/\[skip review\]/i.test(t)`: only ASCII letters have their case ignored against ASCII letters
unfoldable pub has_skip_marker : Text → Bool
unfolding includes
has_skip_marker t = includes (text "[skip review]") (map ascii_lower t)

abbrev pub head_sha : EventBody → Option Text
head_sha b = truthy (chain b.pull_request (λ p. p.head_sha))

abbrev pub job : Language → EventBody → Text → ℕ → Option Text → ℕ → Text → Text → ℕ → JobMessage
job lang b triggered_by now path_scope id o r n = record {
  job_id = pr_id_of o r n ++ (b'@' ∷ decimal now);
  installation_id = decimal id;
  pr_ref = record { platform = github; owner = o; repo = r; number = n; head_sha = head_sha b };
  triggered_by = triggered_by;
  enqueued_at = lang.to_iso_string now;
  path_scope = chain path_scope (λ p. some (p ∷ []));
}

unfoldable pub build_job_message_with_scope :
    Language → EventBody → (triggered_by : Text) → (now : ℕ) → Option Text → Option JobMessage
build_job_message_with_scope lang b triggered_by now path_scope =
    chain (positive (installation_id b)) (λ id. chain (owner b) (λ o. chain (repo b) (λ r.
      chain (positive (pr_number b))
        (λ n. some (job lang b triggered_by now path_scope id o r n)))))

unfoldable pub build_job_message : Language → EventBody → Text → ℕ → Option JobMessage
unfolding build_job_message_with_scope
build_job_message lang b triggered_by now =
    build_job_message_with_scope lang b triggered_by now none

abbrev read_row : Result Text (Option ReviewStateRow) → Option ReviewStateRow
read_row (ok row) = row
read_row (err e) = none

abbrev pub is_paused : Option ReviewStateRow → Bool
is_paused none = false
is_paused (some row) = row.paused

abbrev pub authz_input : EventBody → Option AuthzInput
authz_input b = chain (owner b) (λ o.
    chain (repo b)
      (λ r. chain (truthy (username b)) (λ u. some (record { owner = o; repo = r; username = u }))))

abbrev pub default_debounce_ms : ℕ
default_debounce_ms = 30000

module _ {Database : Type 0} where
  -- no row, also where the query throws
  unfoldable pub read_review_state_row :
      DbClient Database → ℕ → Text → Act Database (Option ReviewStateRow)
  read_review_state_row db id pr_id s =
      (ok (read_row (db.select_review_state s.database id pr_id)), s)

  unfoldable pub read_paused_state : DbClient Database → ℕ → Text → Act Database Bool
  unfolding read_review_state_row
  read_paused_state db id pr_id = do row ← read_review_state_row db id pr_id; pure (is_paused row)

module _ {Database : Type 0} (deps : WebhookHandlerDeps Database) where
  abbrev pub date : Act Database ℕ
  date s = (ok (deps.now s.ticks), record s { ticks = s.ticks + 1 })

  abbrev pub delivered :
      JobMessage → Result Text Text → World Database → Result Text Text × World Database
  delivered m (ok id) s = (ok id, record s { queue = s.queue ++ (m ∷ []) })
  delivered m (err e) s = (err e, s)

  abbrev pub enqueue : JobMessage → Act Database Text
  enqueue m s = delivered m (deps.enqueue m) s

  -- what follows every `buildJobMessage`
  unfoldable pub enqueue_job : Option JobMessage → Act Database WebhookResult
  enqueue_job none = pure (ignored (text "missing repo/installation/pr fields"))
  enqueue_job (some m) = do id ← enqueue m; pure (enqueued id)

  abbrev pub ask_authz :
      Option (AuthzInput → Result Text FeedbackAuthzResult)
      → AuthzInput
      → Act Database FeedbackAuthzResult
  ask_authz none i = pure (denied (text "no checkAuthz wired (fail-closed)"))
  ask_authz (some check) i = answer (check i)

  abbrev pub check_input : Option AuthzInput → Act Database FeedbackAuthzResult
  check_input none = pure (denied (text "missing owner/repo/username from webhook payload"))
  check_input (some i) = ask_authz deps.check_authz i

  unfoldable pub check_command_authz : EventBody → Act Database FeedbackAuthzResult
  check_command_authz b = check_input (authz_input b)

  -- `now - updatedAt < windowMs`, with no subtraction
  abbrev pub is_recent : ℕ → Option ReviewStateRow → Bool
  is_recent now none = false
  is_recent now (some row) =
      ltb now (row.updated_at + or_default deps.debounce_ms default_debounce_ms)

  abbrev pub debounce_of : Option (DbClient Database × ℕ × Text) → ℕ → Act Database Bool
  debounce_of none now = pure false
  debounce_of (some (db, id, pr_id)) now = do
    row ← read_review_state_row db id pr_id
    pure (is_recent now row)

  -- the database, the tenant and the pull request, if all are there
  abbrev pub place : EventBody → Option Text → Option (DbClient Database × ℕ × Text)
  place b id =
      chain deps.db (λ db. chain (installation_id b) (λ i. chain id (λ p. some (db, i, p))))

  unfoldable pub check_debounce : EventBody → ℕ → Act Database Bool
  unfolding read_review_state_row
  check_debounce b now = debounce_of (place b (build_pr_id b)) now
