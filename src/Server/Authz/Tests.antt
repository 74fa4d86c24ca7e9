-- ===== src/Server/Authz/Tests.antt =====
-- A user who may read, and one who may write.
use review_agent.Common.{◌≡◌, refl, some, Option, Text, text, text_eq, Result, ok, if◌then◌else◌}
use review_agent.Server.Webhook.Deps.{AuthzInput, denied}
use review_agent.Server.Authz.{check_github_feedback_authz}

abbrev permission_of : AuthzInput → Result Text (Option Text)
permission_of i =
    ok (some (if text_eq i.username (text "ann") then text "maintain" else text "read"))

abbrev by : Text → AuthzInput
by u = record { owner = text "o"; repo = text "r"; username = u }

reads_only :
    check_github_feedback_authz permission_of (by (text "bob"))
    ≡ denied (text "permission 'read' is below write")
unfolding check_github_feedback_authz text_eq
reads_only = refl
