-- ===== src/Runner/Conversation.antt =====
-- packages/runner/src/conversation-runner.ts: one reply in a thread. The provider, the platform,
-- the ledger and the totals are parameters, each an answer that may be an error. The state is the
-- table of the threads and the calls made for them, the newest first, each with its thread. The
-- prompt of the system does not vary and is left out.
pub mod Turns
mod Tests
use review_agent.Common.{
  ℕ, ◌+◌, Bool, Option, none, some, List, [], ◌∷◌, ◌++◌, map, Text, text, decimal, Result, ok, err,
  ltb, ◌==◌, if◌then◌else◌,
}
use review_agent.Core.Queue.{PrRef}
use review_agent.Core.Review.{InlineComment}
use review_agent.Core.Cost.{
  CostGuardDecision, proceed, fallback, abort, kill, decide_cost_action, RecordPhaseInput, success,
}
use review_agent.Runner.CostGuard.{ReviewOutput, CostTotals}
use review_agent.Db.Conversation.{
  ConversationThreadKey, ConversationThreadRow, increment_conversation_turn,
}
use review_agent.Server.Codecommit.Event.{trim}

pub record ConversationTurn : Type 0 where
  pub author : Text
  pub body : Text

pub record ConversationContext : Type 0 where
  pub finding_body : Text
  pub diff_hunk : Option Text
  pub prior_turns : List ConversationTurn
  pub user_message : Text

pub data CommentId : Type 0 where
  name : Text → CommentId
  number : ℕ → CommentId

pub record CostRecordContext : Type 0 where
  pub job_id : Text
  pub provider : Text
  pub model : Text

pub record ConversationReplyInput : Type 0 where
  pub ref : PrRef
  pub root_comment_id : CommentId
  pub installation_id : ℕ
  pub repo : Text
  pub pr_number : ℕ
  pub context : ConversationContext
  pub max_conversation_turns : ℕ
  pub cost_cap : ℕ
  pub cost_record_context : Option CostRecordContext

pub record ConversationRunnerDeps : Type 0 where
  pub conversation_reply : Bool
  pub post_reply : PrRef → CommentId → Text → Result Text (Unit {0})
  pub generate_review : Text → Result Text (ReviewOutput InlineComment)
  pub database : Result Text (Unit {0})
  pub record_cost : Option (RecordPhaseInput → Result Text (Unit {0}))
  pub read_totals : Option (Result Text CostTotals)
  pub now : ℕ

pub data ConversationReplyOutcome : Type 0 where
  replied : Text → ConversationReplyOutcome
  turn_limit_reached cost_exceeded capability_unsupported : ConversationReplyOutcome

pub data ConversationCall : Type 0 where
  asked : (prompt : Text) → ConversationCall
  entered : RecordPhaseInput → ConversationCall
  posted : PrRef → CommentId → (body : Text) → ConversationCall

pub record Conversations : Type 0 where
  pub threads : List ConversationThreadRow
  pub calls : List (ConversationThreadKey × ConversationCall)

abbrev pub Reply : Type 0
Reply = Result Text ConversationReplyOutcome × Conversations

unfoldable pub string_of : CommentId → Text
unfolding decimal
string_of (name t) = t
string_of (number n) = decimal n

-- `parts.join('\n')`
unfoldable pub join_lines : List Text → Text
join_lines [] = []
join_lines (t ∷ []) = t
join_lines (t ∷ u ∷ parts) = t ++ (b'\n' ∷ join_lines (u ∷ parts))

abbrev pub hunk_parts : Option Text → List Text
hunk_parts none = []
hunk_parts (some []) = []
hunk_parts (some (c ∷ hunk)) = (text "<diff_hunk>\n" ++ ((c ∷ hunk) ++ text "\n</diff_hunk>")) ∷ []

abbrev pub turn_part : ConversationTurn → Text
turn_part t =
    text "<comment author=\"" ++ (t.author ++ (text "\">" ++ (t.body ++ text "</comment>")))

abbrev pub history_parts : List ConversationTurn → List Text
history_parts [] = []
history_parts (t ∷ turns) =
    text "<thread_history>" ∷ (map turn_part (t ∷ turns) ++ (text "</thread_history>" ∷ []))

unfoldable pub build_conversation_prompt : ConversationContext → Text
unfolding join_lines
build_conversation_prompt c = join_lines (
    text "<untrusted>"
    ∷ (text "<finding>" ++ (c.finding_body ++ text "</finding>"))
    ∷ (hunk_parts c.diff_hunk
        ++ (history_parts c.prior_turns
            ++ ((text "<user_message author=\"contributor\">"
                  ++ (c.user_message ++ text "</user_message>"))
                ∷ text "</untrusted>"
                ∷ []))))

unfoldable pub limit_note : (max : ℕ) → Text
unfolding decimal
limit_note max =
    text "_This thread has reached the conversation limit ("
    ++ (decimal max ++ text " turns). No further automated replies will be posted._")

module _ (input : ConversationReplyInput) (deps : ConversationRunnerDeps) where
  unfoldable pub thread_key : ConversationThreadKey
  unfolding string_of
  thread_key = record {
    installation_id = input.installation_id;
    repo = input.repo;
    pr_number = input.pr_number;
    root_comment_id = string_of input.root_comment_id;
  }

  abbrev pub call : ConversationCall → Conversations → Conversations
  call c w = record w { calls = (thread_key, c) ∷ w.calls }

  -- a comment in the thread, and what the call comes to unless it fails
  abbrev pub post_at :
      Result Text (Unit {0}) → (body : Text) → ConversationReplyOutcome → Conversations → Reply
  post_at (err e) body outcome w = (err e, call (posted input.ref input.root_comment_id body) w)
  post_at (ok done) body outcome w =
      (ok outcome, call (posted input.ref input.root_comment_id body) w)

  abbrev pub post : (body : Text) → ConversationReplyOutcome → Conversations → Reply
  post body = post_at (deps.post_reply input.ref input.root_comment_id body) body

  abbrev pub reply : ReviewOutput InlineComment → Conversations → Reply
  reply out w = let body = trim out.summary in post body (replied body) w

  abbrev pub entry : ReviewOutput InlineComment → CostRecordContext → RecordPhaseInput
  entry out c = record {
    installation_id = input.installation_id;
    job_id = c.job_id;
    provider = c.provider;
    model = c.model;
    input_tokens = out.tokens_input;
    output_tokens = out.tokens_output;
    cost = out.cost;
    status = success;
  }

  abbrev pub entered_at :
      Result Text (Unit {0}) → RecordPhaseInput → ReviewOutput InlineComment → Conversations → Reply
  entered_at (err e) row out w = (err e, call (entered row) w)
  entered_at (ok done) row out w = reply out (call (entered row) w)

  abbrev pub enter :
      Option (RecordPhaseInput → Result Text (Unit {0}))
      → Option CostRecordContext
      → ReviewOutput InlineComment
      → Conversations
      → Reply
  enter none context out w = reply out w
  enter (some recorder) none out w = reply out w
  enter (some recorder) (some c) out w =
      let row = entry out c in entered_at (recorder row) row out w

  abbrev pub answered : Result Text (ReviewOutput InlineComment) → Conversations → Reply
  answered (err e) w = (err e, w)
  answered (ok out) w = enter deps.record_cost input.cost_record_context out w

  unfoldable pub answer : Conversations → Reply
  unfolding build_conversation_prompt thread_key trim
  answer w =
      let prompt = build_conversation_prompt input.context in
      answered (deps.generate_review prompt) (call (asked prompt) w)

  abbrev pub decided : CostGuardDecision → Conversations → Reply
  decided proceed w = answer w
  decided fallback w = answer w
  decided (abort reason running cap) w = (ok cost_exceeded, w)
  decided (kill running cap) w = (ok cost_exceeded, w)

  abbrev pub with_totals : Option (Result Text CostTotals) → Conversations → Reply
  with_totals none w = answer w
  with_totals (some (err e)) w = (err e, w)
  with_totals (some (ok totals)) w =
      decided
        (decide_cost_action (record {
          running = totals.running;
          estimate = 0;
          per_pr_cap = input.cost_cap;
          daily = totals.daily;
          daily_cap = 0;
        }))
        w

  unfoldable pub within_turns : Conversations → Reply
  unfolding answer decide_cost_action
  within_turns w = with_totals (if ltb 0 input.cost_cap then deps.read_totals else none) w

  unfoldable pub limit_reached : (turn_count_after : ℕ) → Conversations → Reply
  unfolding limit_note thread_key
  limit_reached n w =
      if n == (input.max_conversation_turns + 1)
      then post (limit_note input.max_conversation_turns) turn_limit_reached w
      else (ok turn_limit_reached, w)

  unfoldable pub take_turn : Conversations → Reply
  unfolding increment_conversation_turn thread_key limit_reached within_turns
  take_turn w =
      let r = increment_conversation_turn deps.now w.threads thread_key in
      let counted = record w { threads = r.1 } in
      if ltb input.max_conversation_turns r.0.turn_count_after
      then limit_reached r.0.turn_count_after counted
      else within_turns counted

  abbrev pub turned : Result Text (Unit {0}) → Conversations → Reply
  turned (err e) w = (err e, w)
  turned (ok done) w = take_turn w

  unfoldable pub handle_conversation_reply : Conversations → Reply
  unfolding take_turn
  handle_conversation_reply w =
      if deps.conversation_reply then turned deps.database w else (ok capability_unsupported, w)
