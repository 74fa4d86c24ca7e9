-- ===== src/Db/Conversation.antt =====
-- packages/db/src/conversation-state.ts: the turns of the threads in a table, which is the list of
-- its rows. The key names the installation, so that the rows of a tenant are those of the key.
use review_agent.Common.{
  ℕ, ◌+◌, ◌≡◌, Bool, true, ◌↔◌, ◌&&◌, List, [], ◌∷◌, Text, text_eq, text_eq_iff, ◌==◌, arith,
  if◌then◌else◌,
}

pub record ConversationThreadKey : Type 0 where
  pub installation_id : ℕ
  pub repo : Text
  pub pr_number : ℕ
  pub root_comment_id : Text

pub record ConversationThreadRow : Type 0 where
  pub key : ConversationThreadKey
  pub turn_count : ℕ
  pub last_turn_at : ℕ

pub record ConversationThreadResult : Type 0 where
  pub turn_count_before : ℕ
  pub turn_count_after : ℕ

unfoldable pub key_eq : (a b : ConversationThreadKey) → Bool
unfolding text_eq
key_eq a b =
    (a.installation_id == b.installation_id)
    && (text_eq a.repo b.repo
        && ((a.pr_number == b.pr_number) && text_eq a.root_comment_id b.root_comment_id))

unfoldable pub get_conversation_turn_count : List ConversationThreadRow → ConversationThreadKey → ℕ
unfolding key_eq
get_conversation_turn_count [] k = 0
get_conversation_turn_count (r ∷ rows) k =
    let rest = get_conversation_turn_count rows k in if key_eq r.key k then r.turn_count else rest

module _ (now : ℕ) where
  abbrev pub turn : ConversationThreadRow → ConversationThreadRow
  turn r = record r { turn_count = r.turn_count + 1; last_turn_at = now }

  -- an insert that updates the row with the same key instead
  unfoldable pub upsert_turn :
      List ConversationThreadRow → ConversationThreadKey → List ConversationThreadRow
  unfolding key_eq
  upsert_turn [] k = record { key = k; turn_count = 1; last_turn_at = now } ∷ []
  upsert_turn (r ∷ rows) k =
      let rest = upsert_turn rows k in if key_eq r.key k then turn r ∷ rows else r ∷ rest

  unfoldable pub increment_conversation_turn :
      List ConversationThreadRow
      → ConversationThreadKey
      → ConversationThreadResult × List ConversationThreadRow
  unfolding get_conversation_turn_count upsert_turn
  increment_conversation_turn rows k =
      let before = get_conversation_turn_count rows k in
      (record { turn_count_before = before; turn_count_after = before + 1 }, upsert_turn rows k)

pub key_eq_iff : (a b : ConversationThreadKey) → (key_eq a b ≡ true) ↔ (a ≡ b)
unfolding key_eq
key_eq_iff a b =
    ground (arith, text_eq_iff a.repo b.repo, text_eq_iff a.root_comment_id b.root_comment_id)

-- An increment adds one turn to its own thread, and none to another.
pub count-increment :
    (now : ℕ) (j k : ConversationThreadKey) (rows : List ConversationThreadRow)
    → get_conversation_turn_count (increment_conversation_turn now rows j).1 k ≡ (
        if key_eq j k
        then get_conversation_turn_count rows k + 1
        else get_conversation_turn_count rows k)
unfolding get_conversation_turn_count upsert_turn increment_conversation_turn
count-increment now j k [] = ground arith
count-increment now j k (r ∷ rows) =
    ground
      (arith, count-increment now j k rows, key_eq_iff r.key j, key_eq_iff r.key k, key_eq_iff j k)
