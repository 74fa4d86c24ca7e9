-- ===== src/Server/ParseCommand.antt =====
-- packages/server/src/utils/parse-command.ts. `toLowerCase` is a parameter: the case mapping of
-- Unicode belongs to the language's library.
pub mod Guards
mod Tests
use review_agent.Common.{
  ℕ, Bool, true, false, ◌&&◌, ◌||◌, not, Option, none, some, List, [], ◌∷◌, Text, text, text_eq,
  starts_with, any, filter, length, leb, ◌==◌, if◌then◌else◌, all, drop, zero, suc,
}

-- the class `\s`
abbrev pub is_space : ℕ → Bool
is_space c =
    leb 9 c && leb c 13
    || c == 32
    || c == 160
    || c == 0x1680
    || leb 0x2000 c && leb c 0x200a
    || c == 0x2028
    || c == 0x2029
    || c == 0x202f
    || c == 0x205f
    || c == 0x3000
    || c == 0xfeff

-- the first part of `t.split(/\s+/)`
unfoldable pub token : Text → Text
token [] = []
token (c ∷ t) = let rest = token t in if is_space c then [] else c ∷ rest

-- `t.trimStart()`
unfoldable pub trim_start : Text → Text
trim_start [] = []
trim_start (c ∷ t) = let rest = trim_start t in if is_space c then rest else c ∷ t

-- from the first white space on
unfoldable pub after_token : Text → Text
after_token [] = []
after_token (c ∷ t) = let rest = after_token t in if is_space c then c ∷ t else rest

-- the second part of the split: absent without white space
abbrev pub second : Text → Option Text
second [] = none
second (c ∷ t) = some (token (trim_start (c ∷ t)))

abbrev non_empty : Option Text → Option Text
non_empty (some (c ∷ t)) = some (c ∷ t)
non_empty _ = none

-- the argument after a command of a trimmed text
abbrev pub argument : Text → Option Text
argument t = non_empty (second (after_token t))

-- the first occurrence of a prefix: the character before it, and the text after it
find_after : Text → Option ℕ → Text → Option (Option ℕ × Text)
unfolding starts_with
find_after prefix before [] = none
find_after prefix before (c ∷ t) =
    let rest = find_after prefix (some c) t in
    if starts_with prefix (c ∷ t) then some (before, drop (length prefix) (c ∷ t)) else rest

abbrev is_letter : ℕ → Bool
is_letter c = leb b'a' c && leb c b'z'

abbrev command_word : Text → Option Text
command_word [] = none
command_word (c ∷ word) = some (filter is_letter (c ∷ word))

abbrev command_after : Option (Option ℕ × Text) → Option Text
command_after none = none
command_after (some (before, t)) = command_word (token (trim_start t))

unfoldable pub parse_command : (to_lower_case : Text → Text) → Text → Option Text
unfolding find_after token trim_start
parse_command to_lower_case body =
    command_after (find_after (text "@review-agent") none (to_lower_case body))

pub data SlashCommand : Type 0 where
  review : Option Text → SlashCommand
  skip resume : SlashCommand

-- `/[/*.?]/`
abbrev pub is_path_char : ℕ → Bool
is_path_char c = c == b'/' || c == b'*' || c == b'.' || c == b'?'

abbrev pub path_scope : Option Text → Option Text
path_scope none = none
path_scope (some t) = if any is_path_char t then some t else none

-- the command that the text after a slash starts with
command_at : Text → Option SlashCommand
unfolding text_eq token after_token trim_start
command_at t =
    if text_eq (token t) (text "skip")
    then some skip
    else if text_eq (token t) (text "resume")
    then some resume
    else if text_eq (token t) (text "review")
    then some (review (path_scope (second (after_token t))))
    else none

abbrev is_boundary : Option ℕ → Bool
is_boundary none = true
is_boundary (some c) = c == 0x20 || c == 0x09 || c == 0x0a || c == 0x0d

abbrev pub or_else : Option SlashCommand → Option SlashCommand → Option SlashCommand
or_else none rest = rest
or_else (some c) rest = some c

-- the walk from slash to slash
slash_from : Option ℕ → Text → Option SlashCommand
unfolding command_at
slash_from before [] = none
slash_from before (c ∷ t) =
    let rest = slash_from (some c) t in
    if c == b'/' && is_boundary before then or_else (command_at t) rest else rest

unfoldable pub parse_slash_command : (to_lower_case : Text → Text) → Text → Option SlashCommand
unfolding slash_from
parse_slash_command to_lower_case body = slash_from none (to_lower_case body)

pub data FeedbackCommandKind : Type 0 where
  thumbs_up thumbs_down dismissed : FeedbackCommandKind

pub record FeedbackCommand : Type 0 where
  pub kind : FeedbackCommandKind
  pub fp_prefix : Option Text

abbrev pub is_hex : ℕ → Bool
is_hex c = leb b'0' c && leb c b'9' || leb b'a' c && leb c b'f'

unfoldable pub is_valid_fp_prefix : Text → Bool
is_valid_fp_prefix t = leb 8 (length t) && all is_hex t

abbrev is_word_char : Option ℕ → Bool
is_word_char none = false
is_word_char (some c) = leb 0x61 c && leb c 0x7a || leb 0x30 c && leb c 0x39 || c == 0x5f

-- `accept` and `reject`, with the argument that follows
with_argument : FeedbackCommandKind → Option Text → Option FeedbackCommand
unfolding is_valid_fp_prefix
with_argument kind none = some (record { kind = kind; fp_prefix = none })
with_argument kind (some arg) =
    if is_valid_fp_prefix arg then some (record { kind = kind; fp_prefix = some arg }) else none

-- the text after `/feedback`, trimmed at its start
feedback_of : Text → Option FeedbackCommand
unfolding text_eq token after_token trim_start with_argument
feedback_of t =
    let arg = argument t in
    if text_eq (token t) (text "accept")
    then with_argument thumbs_up arg
    else if text_eq (token t) (text "reject")
    then with_argument thumbs_down arg
    else if text_eq (token t) (text "dismiss")
    then some (record { kind = dismissed; fp_prefix = none })
    else none

feedback_after : Option (Option ℕ × Text) → Option FeedbackCommand
unfolding feedback_of
feedback_after none = none
feedback_after (some (before, t)) = if is_word_char before then none else feedback_of (trim_start t)

unfoldable pub parse_feedback_command :
    (to_lower_case : Text → Text) → Text → Option FeedbackCommand
unfolding feedback_after find_after
parse_feedback_command to_lower_case body =
    feedback_after (find_after (text "/feedback") none (to_lower_case body))
