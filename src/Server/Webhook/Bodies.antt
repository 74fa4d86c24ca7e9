-- ===== src/Server/Webhook/Bodies.antt =====
-- packages/server/src/handlers/webhook.ts: the event bodies. Every field of a payload may be absent.
-- The body types of the source are views of one payload, so they are one record here.
use review_agent.Common.{ℕ, suc, Bool, Option, none, some, List, ◌∷◌, Text}

pub data EventName : Type 0 where
  pull_request pull_request_review pull_request_review_comment : EventName
  pull_request_review_comment_reaction reaction issue_comment : EventName
  installation installation_repositories ping : EventName
  unrecognised : Text → EventName

pub record Account : Type 0 where
  pub login : Option Text
  pub type : Option Text

pub record Installation : Type 0 where
  pub id : Option ℕ
  pub app_id : Option ℕ
  pub account : Option Account

pub record PullRequest : Type 0 where
  pub number : Option ℕ
  pub draft : Bool
  pub head_sha : Option Text
  pub title : Option Text
  pub body : Option Text
  pub labels : List (Option Text)

pub record Repository : Type 0 where
  pub owner_login : Option Text
  pub name : Option Text

pub record Comment : Type 0 where
  pub body : Option Text
  pub user_login : Option Text
  pub id : Option ℕ
  pub in_reply_to_id : Option ℕ
  pub diff_hunk : Option Text

pub record Issue : Type 0 where
  pub is_pull_request : Bool
  pub number : Option ℕ

pub record EventBody : Type 0 where
  pub action : Option Text
  pub installation : Option Installation
  pub pull_request : Option PullRequest
  pub repository : Option Repository
  pub label_name : Option Text
  pub comment : Option Comment
  pub sender_login : Option Text
  pub issue : Option Issue
  pub review_id : Option ℕ
  pub reaction_content : Option Text

-- `o?.f`
abbrev pub chain {ℓ κ} : {A : Type ℓ} {B : Type κ} → Option A → (A → Option B) → Option B
chain none f = none
chain (some a) f = f a

-- `a ?? b` of two optional values
abbrev pub or_other {ℓ} : {A : Type ℓ} → Option A → Option A → Option A
or_other none b = b
or_other (some a) b = some a

-- a text that is not empty, a number that is not 0: what `!x` lets pass
abbrev pub truthy : Option Text → Option Text
truthy (some (c ∷ t)) = some (c ∷ t)
truthy _ = none

abbrev pub positive : Option ℕ → Option ℕ
positive (some (suc n)) = some (suc n)
positive _ = none

abbrev pub installation_id : EventBody → Option ℕ
installation_id b = chain b.installation (λ i. i.id)

abbrev pub owner : EventBody → Option Text
owner b = truthy (chain b.repository (λ r. r.owner_login))

abbrev pub repo : EventBody → Option Text
repo b = truthy (chain b.repository (λ r. r.name))

-- the number of the pull request, from either place
abbrev pub pr_number : EventBody → Option ℕ
pr_number b = or_other (chain b.pull_request (λ p. p.number)) (chain b.issue (λ i. i.number))

-- who sent the event
abbrev pub username : EventBody → Option Text
username b = or_other b.sender_login (chain b.comment (λ c. c.user_login))

abbrev pub comment_id : EventBody → Option ℕ
comment_id b = chain b.comment (λ c. c.id)

abbrev pub in_reply_to_id : EventBody → Option ℕ
in_reply_to_id b = chain b.comment (λ c. c.in_reply_to_id)

abbrev pub comment_body : EventBody → Option Text
comment_body b = chain b.comment (λ c. c.body)
