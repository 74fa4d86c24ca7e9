-- ===== src/Server/Authz.antt =====
-- packages/server/src/utils/feedback-authz.ts: who may give commands. The call of GitHub for the
-- permission of a user is a parameter, which may throw or name no permission.
pub mod Writers
mod Tests
use review_agent.Common.{
  Bool, Option, none, some, List, [], ◌∷◌, ◌++◌, has, is_empty, Text, text, Result, ok, err,
  if◌then◌else◌,
}
use review_agent.Server.Webhook.Deps.{AuthzInput, FeedbackAuthzResult, allowed, denied}

abbrev pub github_write_permissions : List Text
github_write_permissions = text "admin" ∷ text "maintain" ∷ text "write" ∷ []

abbrev pub judge : Result Text (Option Text) → FeedbackAuthzResult
judge (err message) = denied (text "getCollaboratorPermissionLevel threw: " ++ message)
judge (ok none) = denied (text "getCollaboratorPermissionLevel returned no permission")
judge (ok (some permission)) =
    if has github_write_permissions permission
    then allowed
    else denied (text "permission '" ++ (permission ++ text "' is below write"))

unfoldable pub check_github_feedback_authz :
    (permission_of : AuthzInput → Result Text (Option Text)) → AuthzInput → FeedbackAuthzResult
unfolding has
check_github_feedback_authz permission_of i =
    if is_empty i.username
    then denied (text "missing username on webhook payload")
    else judge (permission_of i)
