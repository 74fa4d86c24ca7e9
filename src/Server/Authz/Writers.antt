-- ===== src/Server/Authz/Writers.antt =====
-- Whom the permission check lets through.
use review_agent.Common.{
  ◌≡◌, ◌↔◌, refl, sym, ap, ◌∙◌, true, false, Option, none, some, has, is_empty, Text, text, Result,
  ok, err, ok-injective, arith, if◌then◌else◌,
}
use mathlib.Core.Option.{some-injective}
use mathlib.Core.Path.{subst}
use review_agent.Server.Authz.{github_write_permissions, judge, check_github_feedback_authz}
use review_agent.Server.Webhook.Bodies.{EventBody}
use review_agent.Server.Webhook.Deps.{AuthzInput, allowed, denied, WebhookHandlerDeps}
use review_agent.Server.Webhook.Shared.{authz_input}
use review_agent.Server.Webhook.Authorised.{CanWrite}

writes_of : (p : Text) → judge (ok (some p)) ≡ allowed → has github_write_permissions p ≡ true
writes_of p h = ground arith

module _ (permission_of : AuthzInput → Result Text (Option Text)) where
  -- the user is named, and GitHub gives one of the three permissions that allow a push
  pub record IsWriter (i : AuthzInput) : Type 0 where
    pub named : is_empty i.username ≡ false
    pub permission : Text
    pub given : permission_of i ≡ ok (some permission)
    pub writes : has github_write_permissions permission ≡ true

  judge-allowed :
      (r : Result Text (Option Text))
      → judge r ≡ allowed
      → (p : Text) × (r ≡ ok (some p)) × (has github_write_permissions p ≡ true)
  judge-allowed (err m) h = cc
  judge-allowed (ok none) h = cc
  judge-allowed (ok (some p)) h = (p, refl, writes_of p h)

  not_empty :
      (i : AuthzInput)
      → check_github_feedback_authz permission_of i ≡ allowed
      → is_empty i.username ≡ false
  unfolding check_github_feedback_authz
  not_empty i h = ground arith

  judged :
      (i : AuthzInput)
      → check_github_feedback_authz permission_of i ≡ allowed
      → judge (permission_of i) ≡ allowed
  unfolding check_github_feedback_authz
  judged i h =
      subst
        (λ b.
          (if b
            then denied (text "missing username on webhook payload")
            else judge (permission_of i))
          ≡ allowed)
        (not_empty i h) h

  allowed-IsWriter :
      (i : AuthzInput) → check_github_feedback_authz permission_of i ≡ allowed → IsWriter i
  allowed-IsWriter i h =
      let (p, q, w) = judge-allowed (permission_of i) (judged i h) in
      record { named = not_empty i h; permission = p; given = q; writes = w }

  IsWriter-allowed :
      (i : AuthzInput) → IsWriter i → check_github_feedback_authz permission_of i ≡ allowed
  unfolding check_github_feedback_authz
  IsWriter-allowed i w = rw w.named (rw w.given (rw w.writes refl))

  -- The check lets a user through exactly if the user is named and GitHub gives the permission to
  -- administer, maintain or write; if the call throws or names no permission, it does not.
  pub check_github_feedback_authz_iff :
      (i : AuthzInput) → (check_github_feedback_authz permission_of i ≡ allowed) ↔ IsWriter i
  check_github_feedback_authz_iff i = (allowed-IsWriter i, IsWriter-allowed i)

  -- With this check wired into the webhook handler, what the handler does on a sender's word it does
  -- for a user whom GitHub lets push.
  pub CanWrite-IsWriter :
      {D : Type 0} (deps : WebhookHandlerDeps D) (b : EventBody)
      → deps.check_authz ≡ some (λ i. ok (check_github_feedback_authz permission_of i))
      → CanWrite deps b
      → (i : AuthzInput) × (authz_input b ≡ some i) × IsWriter i
  CanWrite-IsWriter deps b wired w =
      let same = some-injective _ _ (sym w.wired ∙ wired) in
      (
        w.input,
        w.named,
        allowed-IsWriter w.input (ok-injective (sym (ap (λ f. f w.input) same) ∙ w.allows)),
      )
