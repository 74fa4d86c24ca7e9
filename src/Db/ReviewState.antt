-- ===== src/Db/ReviewState.antt =====
-- packages/db/src/review-state.ts: the mirror of the states in a table. The table is the list of its
-- rows; the database gives a new row the flag that it is not paused. The two states are read by the
-- caller; the reads and the write succeed here, and an error of theirs would be passed on.
pub mod Mirror
use review_agent.Common.{
  ℕ, Bool, true, false, not, Option, none, some, List, [], ◌∷◌, ◌++◌, Text, text_eq, is_empty, ◌==◌,
  decimal, if◌then◌else◌,
}
use review_agent.Core.Review.{ReviewState}

pub record ReviewStateRow : Type 0 where
  pub id : Text
  pub installation_id : ℕ
  pub pr_id : Text
  pub head_sha : Text
  pub state : ReviewState
  pub updated_at : ℕ
  pub paused : Bool

abbrev pub Table : Type 0
Table = List ReviewStateRow

pub record ReviewStateLookup : Type 0 where
  pub installation_id : ℕ
  pub pr_id : Text

unfoldable pub id_for : ReviewStateLookup → Text
id_for q = decimal q.installation_id ++ (b':' ∷ q.pr_id)

-- the first row with an id, which is the key of the table
unfoldable pub select : (id : Text) → Table → Option ReviewStateRow
unfolding text_eq
select id [] = none
select id (r ∷ rows) = let rest = select id rows in if text_eq r.id id then some r else rest

abbrev pub state_of : Option ReviewStateRow → Option ReviewState
state_of none = none
state_of (some r) = some r.state

unfoldable pub read : ReviewStateLookup → Table → Option ReviewState
unfolding select id_for
read q table = state_of (select (id_for q) table)

module _ (now : ℕ) (q : ReviewStateLookup) (head_sha : Text) (state : ReviewState) where
  abbrev pub new_row : ReviewStateRow
  new_row = record {
    id = id_for q;
    installation_id = q.installation_id;
    pr_id = q.pr_id;
    head_sha = head_sha;
    state = state;
    updated_at = now;
    paused = false;
  }

  abbrev pub updated : ReviewStateRow → ReviewStateRow
  updated r = record r { head_sha = head_sha; state = state; updated_at = now }

  -- an insert that updates the row with the same key instead
  unfoldable pub upsert : Table → Table
  unfolding id_for text_eq
  upsert [] = new_row ∷ []
  upsert (r ∷ rows) =
      let rest = upsert rows in if text_eq r.id (id_for q) then updated r ∷ rows else r ∷ rest

-- whether the state of the pull request replaces the one of the mirror
abbrev pub differs : (mirror : Option ReviewState) → (hidden : ReviewState) → Bool
differs none hidden = true
differs (some m) hidden = not (m.reviewed_at == hidden.reviewed_at)

abbrev pub resolve :
    (mirror hidden : Option ReviewState) → Option ReviewState × Option (ReviewState × Text)
resolve mirror (some hidden) =
    if differs mirror hidden
    then (
      some hidden,
      if is_empty hidden.last_reviewed_sha then none else some (hidden, hidden.last_reviewed_sha),
    )
    else (mirror, none)
resolve mirror none = (mirror, none)

abbrev pub stored : (now : ℕ) → ReviewStateLookup → Table → Option (ReviewState × Text) → Table
stored now q table none = table
stored now q table (some (state, sha)) = upsert now q sha state table

-- `loadReviewState` with the reads and the write of the mirror
unfoldable pub load_review_state :
    (now : ℕ)
    → ReviewStateLookup
    → (hidden : Option ReviewState) → Table
    → Option ReviewState × Table
unfolding read upsert text_eq
load_review_state now q hidden table =
    let (state, write) = resolve (read q table) hidden in (state, stored now q table write)
