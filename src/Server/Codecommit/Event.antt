-- ===== src/Server/Codecommit/Event.antt =====
-- packages/server/src/handlers/codecommit-webhook.ts: the event in a delivery, and the message that
-- is made of it.
use review_agent.Common.{
  ℕ, ◌+◌, ◌-◌, ◌*◌, Bool, ◌&&◌, not, Option, none, some, or_default, List, [], ◌∷◌, ◌++◌, all, Text,
  text, is_empty, decimal, leb, ◌==◌, if◌then◌else◌,
}
use review_agent.Core.Queue.{JobMessage, codecommit}
use review_agent.Server.ParseCommand.{is_space, trim_start}
use review_agent.Server.Webhook.Deps.{Language}

-- a number that is no natural number is another one
pub data PullRequestId : Type 0 where
  integer : ℕ → PullRequestId
  other_number : PullRequestId
  digits : Text → PullRequestId

pub record CodecommitEvent : Type 0 where
  pub event : Option Text
  pub pull_request_id : Option PullRequestId
  pub repository_name : Option Text
  pub repository_names : Option (List Text)
  pub source_commit : Option Text
  pub comment_content : Option Text
  pub notification_body : Option Text
  pub principal_id : Option Text

-- what `JSON.parse` makes of a text: it throws, or the value is no object, or it is one, with a
-- `detail` if that is an object, and an `account` if that is a text
pub data Parsed : Type 0 where
  thrown no_object : Parsed
  envelope : (detail : CodecommitEvent) → (account : Option Text) → Parsed
  flat : CodecommitEvent → Parsed

unfoldable pub extract_codecommit_event : Parsed → Option (CodecommitEvent × Option Text)
extract_codecommit_event (envelope detail account) = some (detail, account)
extract_codecommit_event (flat ev) = some (ev, none)
extract_codecommit_event thrown = none
extract_codecommit_event no_object = none

abbrev pub unless_empty : Text → Option Text
unless_empty t = if is_empty t then none else some t

abbrev pub head : List Text → Option Text
head [] = none
head (t ∷ texts) = some t

-- a name that is there and not empty
abbrev pub filled : Option Text → Option Text
filled none = none
filled (some t) = unless_empty t

abbrev pub otherwise : Option Text → Option Text → Option Text
otherwise none next = next
otherwise (some t) next = some t

unfoldable pub pick_repository_name : CodecommitEvent → Option Text
pick_repository_name ev =
    otherwise (filled ev.repository_name) (filled (head (or_default ev.repository_names [])))

abbrev pub is_digit : ℕ → Bool
is_digit c = leb b'0' c && leb c b'9'

-- the digits that a text starts with, after a value
unfoldable pub digits_from : ℕ → Text → ℕ
digits_from value [] = value
digits_from value (c ∷ t) =
    let rest = digits_from (value * 10 + (c - b'0')) t in if is_digit c then rest else value

-- `Number.parseInt(t, 10)`: nothing where it gives no number or a negative one
abbrev pub unsigned : Text → Option ℕ
unsigned [] = none
unsigned (c ∷ t) = if is_digit c then some (digits_from 0 (c ∷ t)) else none

abbrev pub signed : Text → Option ℕ
signed [] = none
signed (c ∷ t) = if c == b'+' then unsigned t else unsigned (c ∷ t)

unfoldable pub parse_int : Text → Option ℕ
unfolding trim_start digits_from
parse_int t = signed (trim_start t)

abbrev pub max_safe_integer : ℕ
max_safe_integer = 9007199254740991

abbrev pub safe : Option ℕ → Option ℕ
safe none = none
safe (some n) = if leb 1 n && leb n max_safe_integer then some n else none

abbrev pub number_of : PullRequestId → Option ℕ
number_of (integer n) = some n
number_of other_number = none
number_of (digits t) = parse_int t

abbrev pub picked : Option PullRequestId → Option ℕ
picked none = none
picked (some id) = safe (number_of id)

unfoldable pub pick_pr_number : CodecommitEvent → Option ℕ
unfolding parse_int
pick_pr_number ev = picked ev.pull_request_id

abbrev pub job_id_of : Text → ℕ → ℕ → Text
job_id_of repo number now =
    text "codecommit:" ++ (repo ++ (b'#' ∷ decimal number ++ (b'@' ∷ decimal now)))

module _ (l : Language) (ev : CodecommitEvent) (triggered_by : Text) (now : ℕ)
    (account : Text) where
  abbrev pub job_of : Option Text → Option ℕ → Option JobMessage
  job_of none number = none
  job_of (some repo) none = none
  job_of (some repo) (some number) = some (record {
    job_id = job_id_of repo number now;
    installation_id = account;
    pr_ref = record {
      platform = codecommit;
      owner = [];
      repo = repo;
      number = number;
      head_sha = filled ev.source_commit;
    };
    triggered_by = triggered_by;
    enqueued_at = l.to_iso_string now;
    path_scope = none;
  })

  unfoldable pub build_codecommit_job_message : Option JobMessage
  unfolding pick_repository_name pick_pr_number
  build_codecommit_job_message = job_of (pick_repository_name ev) (pick_pr_number ev)

-- `/^\d+$/`
unfoldable pub is_account : Text → Bool
is_account t = not (is_empty t) && all is_digit t

-- without white space at its end
unfoldable pub trim_end : Text → Text
trim_end [] = []
trim_end (c ∷ t) = let rest = trim_end t in if is_space c && is_empty rest then [] else c ∷ rest

-- `t.trim()`
unfoldable pub trim : Text → Text
unfolding trim_start trim_end
trim t = trim_end (trim_start t)
