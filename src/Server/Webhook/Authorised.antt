-- ===== src/Server/Webhook/Authorised.antt =====
-- Who may make the webhook handler do something by a comment.
use review_agent.Common.{
  ℕ, ◌≡◌, ◌≢◌, inl, inr, refl, Bool, true, false, Option, none, some, Option-cases, is_empty, Text,
  Result, ok,
}
use mathlib.Core.Path.{subst}
use review_agent.Core.Queue.{JobMessage}
use review_agent.Server.ParseCommand.{SlashCommand, review, skip, resume}
use review_agent.Server.ParseCommand.Guards.{IsScope}
use review_agent.Server.Webhook.Bodies.{EventBody}
use review_agent.Server.Webhook.Deps.{
  AuthzInput, FeedbackAuthzResult, allowed, denied, ConversationHandlerInput, WebhookHandlerDeps,
  Language, World, Act, ◌>>=◌, pure,
}
use review_agent.Server.Webhook.Shared.{
  date, authz_input, ask_authz, check_input, check_command_authz,
}
use review_agent.Server.Webhook.Comments.{
  set_paused, run_command, if_allowed, review_once, handle_slash_command,
}
use review_agent.Server.Webhook.Frames.{Within, Returns, Moves}
use review_agent.Server.Webhook.Steps.{
  still, then-Within, date-Within, check_command_authz-Within, set_paused-Within,
  review_once-Within,
}
use review_agent.Server.Webhook.Jobs.{IsJob}

module _ {D : Type 0} (deps : WebhookHandlerDeps D) (b : EventBody) where
  -- the repository and the sender are named, and the permission check allows the sender
  pub record CanWrite : Type 0 where
    pub input : AuthzInput
    pub check : AuthzInput → Result Text FeedbackAuthzResult
    pub named : authz_input b ≡ some input
    pub wired : deps.check_authz ≡ some check
    pub allows : check input ≡ ok allowed

  -- the bot's own name is known, and is not that of the sender
  pub record IsFromOther (i : ConversationHandlerInput) : Type 0 where
    pub login : Text
    pub known : deps.get_bot_login ≡ some (ok login)
    pub proper : is_empty login ≡ false
    pub other : i.sender ≢ login

  ask_authz-Returns :
      (c : Option (AuthzInput → Result Text FeedbackAuthzResult)) (i : AuthzInput)
      → Returns (ask_authz deps c i) allowed
      → (check : AuthzInput → Result Text FeedbackAuthzResult) × (c ≡ some check)
        × (check i ≡ ok allowed)
  ask_authz-Returns none i (s, e) = cc
  ask_authz-Returns (some check) i (s, e) = (check, refl, e)

  not_named : authz_input b ≡ none → (s : World D) → (check_command_authz deps b s).0 ≢ ok allowed
  unfolding check_command_authz
  not_named p s e =
      let e' : (check_input deps none s).0 ≡ ok allowed =
        subst (λ o. (check_input deps o s).0 ≡ ok allowed) p e in
      cc

  named_as :
      (i : AuthzInput)
      → authz_input b ≡ some i
      → (s : World D) → (check_command_authz deps b s).0 ≡ ok allowed
      → (ask_authz deps deps.check_authz i s).0 ≡ ok allowed
  unfolding check_command_authz
  named_as i p s e = subst (λ o. (check_input deps o s).0 ≡ ok allowed) p e

  check_command_authz-CanWrite : Returns (check_command_authz deps b) allowed → CanWrite
  unfolding check_command_authz
  check_command_authz-CanWrite (s, e) = elim (Option-cases (authz_input b)) [
    | inl p ↦ absurd (not_named p s e)
    | inr (i, p) ↦
        let (check, q, r) = ask_authz-Returns deps.check_authz i (s, named_as i p s e) in
        record { input = i; check = check; named = p; wired = q; allows = r }
  ]

module _ {D : Type 0} (lang : Language) (deps : WebhookHandlerDeps D) (b : EventBody) where
  abbrev pub Sent : JobMessage → Type 0
  Sent m = IsJob b m × CanWrite deps b

  abbrev pub Asked : ConversationHandlerInput → Type 0
  Asked i = CanWrite deps b × IsFromOther deps b i

  abbrev pub By : World D → World D → Type 0
  By = Moves Sent Asked (CanWrite deps b)

  pub stay : (s : World D) → By s s
  stay = still Sent Asked (CanWrite deps b)

  pub then-By :
      {A B : Type 0} (m : Act D A) (f : A → Act D B)
      → Within By m
      → ((a : A) → Returns m a → Within By (f a))
      → Within By (m >>= f)
  then-By m f = then-Within Sent Asked (CanWrite deps b) m f

  pub date-By : Within By (date deps)
  date-By = date-Within Sent Asked (CanWrite deps b) deps

  -- a step that follows the permission check
  pub checked-By :
      {A : Type 0} (f : FeedbackAuthzResult → Act D A)
      → (CanWrite deps b → Within By (f allowed))
      → ((reason : Text) → Within By (f (denied reason)))
      → Within By (check_command_authz deps b >>= f)
  checked-By f yes_lem no_lem =
      then-By (check_command_authz deps b) f
        (check_command_authz-Within Sent Asked (CanWrite deps b) deps b)
        (λ a r.
          elim a as (λ x. Returns (check_command_authz deps b) x → Within By (f x)) [
            | allowed ↦ λ q. yes_lem (check_command_authz-CanWrite deps b q)
            | denied reason ↦ λ q. no_lem reason
          ]
            r)

  pub review-By :
      CanWrite deps b
      → (scope : Option Text) (now : ℕ) (later : Act D ℕ) → IsScope scope
      → Within By later
      → Within By (review_once lang deps scope b now later)
  review-By w = review_once-Within Sent Asked (CanWrite deps b) deps lang b (λ m j. (j, w))

  paused-By :
      CanWrite deps b → (paused : Bool) (now : ℕ) → Within By (set_paused lang deps paused b now)
  paused-By w = set_paused-Within Sent Asked (CanWrite deps b) deps lang b w

  run_command-By :
      CanWrite deps b
      → (slash : SlashCommand) (now : ℕ)
      → ((scope : Option Text) → slash ≡ review scope → IsScope scope)
      → Within By (run_command lang deps slash b now)
  run_command-By w skip now h =
      then-By (set_paused lang deps true b now) _ (paused-By w true now) (λ u r. stay)
  run_command-By w resume now h =
      then-By (set_paused lang deps false b now) _ (paused-By w false now) (λ u r. stay)
  run_command-By w (review scope) now h = review-By w scope now (pure now) (h scope refl) stay

  pub handle_slash_command-By :
      (slash : SlashCommand) (now : ℕ)
      → ((scope : Option Text) → slash ≡ review scope → IsScope scope)
      → Within By (handle_slash_command lang deps slash b now)
  unfolding handle_slash_command
  handle_slash_command-By slash now h =
      checked-By (λ authz. if_allowed lang deps authz (run_command lang deps slash b now))
        (λ w. run_command-By w slash now h) (λ reason. stay)
