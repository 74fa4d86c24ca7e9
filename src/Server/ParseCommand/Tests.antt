-- ===== src/Server/ParseCommand/Tests.antt =====
-- Comments with commands; the texts are in lower case.
use review_agent.Common.{◌≡◌, refl, none, some, Text, text}
use review_agent.Server.ParseCommand.{
  parse_command, parse_slash_command, parse_feedback_command, review, thumbs_down,
}

abbrev same : Text → Text
same t = t

punctuated : parse_command same (text "hi @review-agent  review. now") ≡ some (text "review")
unfolding parse_command
punctuated = refl

inside_a_path : parse_slash_command same (text "see pre/skip") ≡ none
unfolding parse_slash_command
inside_a_path = refl

prose : parse_slash_command same (text "/review please") ≡ some (review none)
unfolding parse_slash_command
prose = refl

scoped :
    parse_slash_command same (text "ok /review src/a.ts now")
    ≡ some (review (some (text "src/a.ts")))
unfolding parse_slash_command
scoped = refl

short : parse_feedback_command same (text "/feedback reject 0a1") ≡ none
unfolding parse_feedback_command
short = refl

rejected :
    parse_feedback_command same (text "/feedback reject 0a1b2c3d no")
    ≡ some (record { kind = thumbs_down; fp_prefix = some (text "0a1b2c3d") })
unfolding parse_feedback_command
rejected = refl
