-- ===== src/Server/ParseCommand/Guards.antt =====
-- What a parsed command carries.
use review_agent.Common.{
  ℕ, ◌≤◌, ◌≡◌, Bool, true, false, Option, none, some, [], ◌∷◌, Text, text, text_eq, All, all, any,
  length, arith, Bool-cases, inl, inr, ◌==◌, ◌&&◌,
}
use review_agent.Server.ParseCommand.{
  find_after, FeedbackCommandKind, thumbs_up, thumbs_down, FeedbackCommand, is_hex,
  is_valid_fp_prefix, is_word_char, with_argument, feedback_of, feedback_after,
  parse_feedback_command, argument, path_scope, second, after_token, or_else, command_at, is_space,
  is_path_char, is_boundary, review, token, trim_start, SlashCommand, slash_from,
  parse_slash_command,
}

all-All : (p : ℕ → Bool) (t : Text) → all p t ≡ true → All (λ c. p c ≡ true) t
all-All p [] h = tt
all-All p (c ∷ t) h = (ground arith, all-All p t (ground arith))

-- at least eight characters, all of them lower-case hexadecimal digits
abbrev pub IsFpPrefix : Option Text → Type 0
IsFpPrefix none = Unit
IsFpPrefix (some p) = (8 ≤ length p) × All (λ c. is_hex c ≡ true) p

abbrev Guarded : Option FeedbackCommand → Type 0
Guarded none = Unit
Guarded (some c) = IsFpPrefix c.fp_prefix

with_argument-Guarded :
    (kind : FeedbackCommandKind) (arg : Option Text) → Guarded (with_argument kind arg)
unfolding with_argument is_valid_fp_prefix
with_argument-Guarded kind none = tt
with_argument-Guarded kind (some arg) = elim (Bool-cases (is_valid_fp_prefix arg)) [
  | inl e ↦ rw (e, with_argument) (ground arith, all-All is_hex arg (ground arith))
  | inr e ↦ rw (e, with_argument) tt
]

feedback_of-Guarded : (t : Text) → Guarded (feedback_of t)
unfolding feedback_of
feedback_of-Guarded t = elim (Bool-cases (text_eq (token t) (text "accept"))) [
  | inl e ↦ rw e (with_argument-Guarded thumbs_up (argument t))
  | inr e ↦ rw e (elim (Bool-cases (text_eq (token t) (text "reject"))) [
    | inl f ↦ rw f (with_argument-Guarded thumbs_down (argument t))
    | inr f ↦ rw f (elim (Bool-cases (text_eq (token t) (text "dismiss"))) [
      | inl g ↦ rw g tt
      | inr g ↦ rw g tt
    ])
  ])
]

feedback_after-Guarded : (o : Option (Option ℕ × Text)) → Guarded (feedback_after o)
unfolding feedback_after
feedback_after-Guarded none = tt
feedback_after-Guarded (some (before, t)) = elim (Bool-cases (is_word_char before)) [
  | inl e ↦ rw e tt
  | inr e ↦ rw e (feedback_of-Guarded (trim_start t))
]

Guarded-some :
    (o : Option FeedbackCommand) {c : FeedbackCommand}
    → Guarded o
    → o ≡ some c
    → IsFpPrefix c.fp_prefix
Guarded-some o h e = rw e at h

-- Whatever the comment, if it is parsed as a feedback command with a prefix, then the prefix has at
-- least eight characters and only lower-case hexadecimal digits.
pub parse_feedback_command-IsFpPrefix :
    (to_lower_case : Text → Text) (body : Text) {c : FeedbackCommand}
    → parse_feedback_command to_lower_case body ≡ some c
    → IsFpPrefix c.fp_prefix
unfolding parse_feedback_command
parse_feedback_command-IsFpPrefix to_lower_case body e =
    Guarded-some _
      (feedback_after-Guarded (find_after (text "/feedback") none (to_lower_case body))) e

token-All : (t : Text) → All (λ c. is_space c ≡ false) (token t)
unfolding token
token-All [] = tt
token-All (c ∷ t) = elim (Bool-cases (is_space c)) [
  | inl e ↦ rw e tt
  | inr e ↦ rw e (e, token-All t)
]

-- one token, with a character that a path or a glob has
abbrev pub IsScope : Option Text → Type 0
IsScope none = Unit
IsScope (some p) = (any is_path_char p ≡ true) × All (λ c. is_space c ≡ false) p

abbrev Scoped : Option SlashCommand → Type 0
Scoped (some (review scope)) = IsScope scope
Scoped _ = Unit

path_scope-IsScope : (t : Text) → All (λ c. is_space c ≡ false) t → IsScope (path_scope (some t))
path_scope-IsScope t h = elim (Bool-cases (any is_path_char t)) [
  | inl e ↦ rw e (e, h)
  | inr e ↦ rw e tt
]

second-IsScope : (t : Text) → IsScope (path_scope (second t))
second-IsScope [] = tt
second-IsScope (c ∷ t) =
    path_scope-IsScope (token (trim_start (c ∷ t))) (token-All (trim_start (c ∷ t)))

command_at-Scoped : (t : Text) → Scoped (command_at t)
unfolding command_at
command_at-Scoped t = elim (Bool-cases (text_eq (token t) (text "skip"))) [
  | inl e ↦ rw e tt
  | inr e ↦ rw e (elim (Bool-cases (text_eq (token t) (text "resume"))) [
    | inl f ↦ rw f tt
    | inr f ↦ rw f (elim (Bool-cases (text_eq (token t) (text "review"))) [
      | inl g ↦ rw g (second-IsScope (after_token t))
      | inr g ↦ rw g tt
    ])
  ])
]

or_else-Scoped : (o rest : Option SlashCommand) → Scoped o → Scoped rest → Scoped (or_else o rest)
or_else-Scoped none rest h k = k
or_else-Scoped (some c) rest h k = h

slash_from-Scoped : (before : Option ℕ) (t : Text) → Scoped (slash_from before t)
unfolding slash_from
slash_from-Scoped before [] = tt
slash_from-Scoped before (c ∷ t) = elim (Bool-cases ((c == b'/') && is_boundary before)) [
  | inl e ↦ rw e (
      or_else-Scoped (command_at t) (slash_from (some c) t) (command_at-Scoped t)
        (slash_from-Scoped (some c) t))
  | inr e ↦ rw e (slash_from-Scoped (some c) t)
]

Scoped-some :
    (o : Option SlashCommand) {scope : Option Text}
    → Scoped o
    → o ≡ some (review scope)
    → IsScope scope
Scoped-some o h e = rw e at h

-- Whatever the comment, if it is parsed as `/review` with a path, then the path is one token without
-- white space, and holds one of the characters `/`, `*`, `.` and `?`: a word of prose is no path.
pub parse_slash_command-IsScope :
    (to_lower_case : Text → Text) (body : Text) {scope : Option Text}
    → parse_slash_command to_lower_case body ≡ some (review scope)
    → IsScope scope
unfolding parse_slash_command
parse_slash_command-IsScope to_lower_case body e =
    Scoped-some _ (slash_from-Scoped none (to_lower_case body)) e
