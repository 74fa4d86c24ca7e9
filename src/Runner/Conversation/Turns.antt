-- ===== src/Runner/Conversation/Turns.antt =====
-- packages/runner/src/conversation-runner.ts: what any number of replies costs and posts in one
-- thread.
use review_agent.Common.{
  ℕ, ◌+◌, ◌≤◌, ◌≡◌, refl, ap, ◌∙◌, Bool, true, false, ◌&&◌, inl, inr, Option, none, some, List, [],
  ◌∷◌, All, Text, Result, ok, err, ltb, ◌==◌, Bool-cases, arith, if◌then◌else◌,
}
use review_agent.Core.Queue.{PrRef}
use review_agent.Core.Review.{InlineComment}
use review_agent.Core.Cost.{CostGuardDecision, proceed, fallback, abort, kill, RecordPhaseInput}
use review_agent.Runner.CostGuard.{ReviewOutput, CostTotals}
use review_agent.Db.Conversation.{
  ConversationThreadKey, key_eq, key_eq_iff, get_conversation_turn_count,
  increment_conversation_turn, count-increment,
}
use review_agent.Runner.Conversation.{
  ConversationReplyInput, ConversationRunnerDeps, ConversationReplyOutcome, turn_limit_reached,
  ConversationCall, CommentId, asked, entered, posted, Conversations, CostRecordContext, thread_key,
  call, post_at, entered_at, enter, answered, answer, decided, with_totals, within_turns,
  limit_reached, take_turn, turned, post, handle_conversation_reply,
}

abbrev pub Request : Type 0
Request = ConversationReplyInput × ConversationRunnerDeps

unfoldable pub run : List Request → Conversations → Conversations
unfolding handle_conversation_reply
run [] w = w
run ((input, deps) ∷ requests) w = run requests (handle_conversation_reply input deps w).1

abbrev pub nothing_yet : Conversations
nothing_yet = record { threads = []; calls = [] }

abbrev pub is_asked : ConversationCall → Bool
is_asked (asked prompt) = true
is_asked (entered row) = false
is_asked (posted ref root body) = false

abbrev pub is_posted : ConversationCall → Bool
is_posted (asked prompt) = false
is_posted (entered row) = false
is_posted (posted ref root body) = true

abbrev pub bit : Bool → ℕ
bit true = 1
bit false = 0

-- the calls of a kind for a thread
unfoldable pub count :
    (ConversationCall → Bool)
    → ConversationThreadKey
    → List (ConversationThreadKey × ConversationCall)
    → ℕ
unfolding key_eq
count p k [] = 0
count p k ((j, c) ∷ calls) = bit (key_eq j k && p c) + count p k calls

module _ (k : ConversationThreadKey) where
  -- at most so many further model calls and comments, and no turn
  record Grew (w w' : Conversations) (asks posts : ℕ) : Type 0 where
    threads : w'.threads ≡ w.threads
    asks_at : count is_asked k w'.calls ≤ asks + count is_asked k w.calls
    posts_at : count is_posted k w'.calls ≤ posts + count is_posted k w.calls

  same : (w : Conversations) (a p : ℕ) → Grew w w a p
  same w a p = record { threads = refl; asks_at = omega arith; posts_at = omega arith }

  join :
      {u v w : Conversations} {a b c p q r : ℕ}
      → Grew u v a p
      → Grew v w b q
      → a + b ≤ c
      → p + q ≤ r
      → Grew u w c r
  join g h asks posts = record {
    threads = h.threads ∙ g.threads;
    asks_at = omega (arith, g.asks_at, h.asks_at);
    posts_at = omega (arith, g.posts_at, h.posts_at);
  }

  module _ (input : ConversationReplyInput) (deps : ConversationRunnerDeps) where
    abbrev own : Bool
    own = key_eq (thread_key input deps) k

    call-Grew :
        (c : ConversationCall) (w : Conversations)
        → Grew w (call input deps c w) (bit (own && is_asked c)) (bit (own && is_posted c))
    unfolding count
    call-Grew c w = record { threads = refl; asks_at = omega arith; posts_at = omega arith }

    asked-Grew :
        (prompt : Text) (w : Conversations) → Grew w (call input deps (asked prompt) w) (bit own) 0
    asked-Grew prompt w =
        let g = call-Grew (asked prompt) w in
        record {
          threads = g.threads;
          asks_at = ground (arith, g.asks_at);
          posts_at = ground (arith, g.posts_at);
        }

    entered-Grew :
        (row : RecordPhaseInput) (w : Conversations) → Grew w (call input deps (entered row) w) 0 0
    entered-Grew row w =
        let g = call-Grew (entered row) w in
        record {
          threads = g.threads;
          asks_at = ground (arith, g.asks_at);
          posts_at = ground (arith, g.posts_at);
        }

    posted-Grew :
        (ref : PrRef) (root : CommentId) (body : Text) (w : Conversations)
        → Grew w (call input deps (posted ref root body) w) 0 (bit own)
    posted-Grew ref root body w =
        let g = call-Grew (posted ref root body) w in
        record {
          threads = g.threads;
          asks_at = ground (arith, g.asks_at);
          posts_at = ground (arith, g.posts_at);
        }

    post-Grew :
        (r : Result Text (Unit {0})) (body : Text) (o : ConversationReplyOutcome)
        (w : Conversations)
        → Grew w (post_at input deps r body o w).1 0 (bit own)
    post-Grew (err e) body o w = posted-Grew _ _ body w
    post-Grew (ok done) body o w = posted-Grew _ _ body w

    entered_at-Grew :
        (r : Result Text (Unit {0})) (row : RecordPhaseInput) (out : ReviewOutput InlineComment)
        (w : Conversations)
        → Grew w (entered_at input deps r row out w).1 0 (bit own)
    entered_at-Grew (err e) row out w =
        join (entered-Grew row w) (same _ 0 (bit own)) (omega arith) (omega arith)
    entered_at-Grew (ok done) row out w =
        join (entered-Grew row w) (post-Grew _ _ _ _) (omega arith) (omega arith)

    enter-Grew :
        (recorder : Option (RecordPhaseInput → Result Text (Unit {0})))
        (context : Option CostRecordContext) (out : ReviewOutput InlineComment) (w : Conversations)
        → Grew w (enter input deps recorder context out w).1 0 (bit own)
    enter-Grew none context out w = post-Grew _ _ _ w
    enter-Grew (some recorder) none out w = post-Grew _ _ _ w
    enter-Grew (some recorder) (some c) out w = entered_at-Grew _ _ out w

    answered-Grew :
        (r : Result Text (ReviewOutput InlineComment)) (w : Conversations)
        → Grew w (answered input deps r w).1 0 (bit own)
    answered-Grew (err e) w = same w 0 (bit own)
    answered-Grew (ok out) w = enter-Grew deps.record_cost input.cost_record_context out w

    answer-Grew : (w : Conversations) → Grew w (answer input deps w).1 (bit own) (bit own)
    unfolding answer
    answer-Grew w = join (asked-Grew _ w) (answered-Grew _ _) (omega arith) (omega arith)

    decided-Grew :
        (d : CostGuardDecision) (w : Conversations)
        → Grew w (decided input deps d w).1 (bit own) (bit own)
    decided-Grew proceed w = answer-Grew w
    decided-Grew fallback w = answer-Grew w
    decided-Grew (abort reason running cap) w = same w _ _
    decided-Grew (kill running cap) w = same w _ _

    with_totals-Grew :
        (t : Option (Result Text CostTotals)) (w : Conversations)
        → Grew w (with_totals input deps t w).1 (bit own) (bit own)
    with_totals-Grew none w = answer-Grew w
    with_totals-Grew (some (err e)) w = same w _ _
    with_totals-Grew (some (ok totals)) w = decided-Grew _ w

    within_turns-Grew :
        (w : Conversations) → Grew w (within_turns input deps w).1 (bit own) (bit own)
    unfolding within_turns
    within_turns-Grew w = with_totals-Grew _ w

    noted-Grew :
        (note : Text) (w : Conversations) (b : Bool)
        → Grew w
            (if b then post input deps note turn_limit_reached w else (ok turn_limit_reached, w)).1
            0
            (bit (own && b))
    noted-Grew note w true =
        join (post-Grew (deps.post_reply input.ref input.root_comment_id note) note _ w)
          (same _ 0 0) (omega arith) (ground arith)
    noted-Grew note w false = same w _ _

    limit_reached-Grew :
        (m : ℕ) (w : Conversations)
        → Grew w
            (limit_reached input deps m w).1
            0
            (bit (own && (m == input.max_conversation_turns + 1)))
    unfolding limit_reached
    limit_reached-Grew m w = noted-Grew _ w _

  -- what has been called for the thread while at most `n` turns are allowed
  pub record Bounded (n : ℕ) (w : Conversations) : Type 0 where
    pub asks_le : count is_asked k w.calls ≤ n
    pub posts_le : count is_posted k w.calls ≤ n + 1
    pub asks_turns : count is_asked k w.calls ≤ get_conversation_turn_count w.threads k
    pub posts_turns : count is_posted k w.calls ≤ get_conversation_turn_count w.threads k

  module _ (n : ℕ) (input : ConversationReplyInput) (deps : ConversationRunnerDeps)
      (allowed : thread_key input deps ≡ k → input.max_conversation_turns ≤ n) where
    abbrev j : ConversationThreadKey
    j = thread_key input deps

    abbrev counted : Conversations → Conversations
    counted w = record w { threads = (increment_conversation_turn deps.now w.threads j).1 }

    Grew-Bounded :
        (w u : Conversations) (a p : ℕ)
        → Grew (counted w) u a p
        → a ≤ bit (key_eq j k)
        → p ≤ bit (key_eq j k)
        → (key_eq j k ≡ true → 1 ≤ a → get_conversation_turn_count w.threads k + 1 ≤ n)
        → (key_eq j k ≡ true → 1 ≤ p → get_conversation_turn_count w.threads k ≤ n)
        → Bounded n w
        → Bounded n u
    Grew-Bounded w u a p g ha hp na np b =
        let turns =
          ap (λ rows. get_conversation_turn_count rows k) g.threads
          ∙ count-increment deps.now j k w.threads in
        record {
          asks_le = ground (arith, g.asks_at, b.asks_le, b.asks_turns);
          posts_le = ground (arith, g.posts_at, b.posts_le, b.posts_turns);
          asks_turns = ground (arith, g.asks_at, b.asks_turns, turns);
          posts_turns = ground (arith, g.posts_at, b.posts_turns, turns);
        }

    own_turns :
        (w : Conversations)
        → key_eq j k ≡ true
        → get_conversation_turn_count w.threads j ≡ get_conversation_turn_count w.threads k
    own_turns w e = ap (get_conversation_turn_count w.threads) ((key_eq_iff j k).0 e)

    limit : key_eq j k ≡ true → input.max_conversation_turns ≤ n
    limit e = allowed ((key_eq_iff j k).0 e)

    gate-Bounded :
        (w : Conversations)
        → Bounded n w
        → (over : Bool)
        → ltb input.max_conversation_turns (get_conversation_turn_count w.threads j + 1) ≡ over
        → Bounded n
            (if over
              then limit_reached input deps
                  (get_conversation_turn_count w.threads j + 1)
                  (counted w)
              else within_turns input deps (counted w)).1
    gate-Bounded w b true h =
        Grew-Bounded w _ _ _ (limit_reached-Grew input deps _ (counted w)) (omega arith)
          (ground arith) (λ e one. omega arith) (λ e one. ground (arith, own_turns w e, limit e)) b
    gate-Bounded w b false h =
        Grew-Bounded w _ _ _ (within_turns-Grew input deps (counted w)) (omega arith) (omega arith)
          (λ e one. ground (arith, own_turns w e, limit e))
          (λ e one. ground (arith, own_turns w e, limit e)) b

    take_turn-Bounded : (w : Conversations) → Bounded n w → Bounded n (take_turn input deps w).1
    unfolding take_turn increment_conversation_turn
    take_turn-Bounded w b = gate-Bounded w b _ refl

    turned-Bounded :
        (r : Result Text (Unit {0})) (w : Conversations)
        → Bounded n w
        → Bounded n (turned input deps r w).1
    turned-Bounded (err e) w b = b
    turned-Bounded (ok done) w b = take_turn-Bounded w b

    handle-Bounded :
        (w : Conversations) → Bounded n w → Bounded n (handle_conversation_reply input deps w).1
    unfolding handle_conversation_reply
    handle-Bounded w b = elim (Bool-cases deps.conversation_reply) [
      | inl e ↦ rw e (turned-Bounded deps.database w b)
      | inr e ↦ rw e b
    ]

  -- every request for the thread allows at most so many turns
  abbrev pub AllowsAtMost : ℕ → Request → Type 0
  AllowsAtMost n (input, deps) = thread_key input deps ≡ k → input.max_conversation_turns ≤ n

  run_from :
      (n : ℕ) (requests : List Request) (w : Conversations)
      → All (AllowsAtMost n) requests
      → Bounded n w
      → Bounded n (run requests w)
  unfolding run
  run_from n [] w h b = b
  run_from n ((input, deps) ∷ requests) w (h, hs) b =
      run_from n requests _ hs (handle-Bounded n input deps h w b)

-- In any sequence of requests, for this thread and for others, whose requests for the thread allow
-- at most `n` turns, and whatever fails in them: the model is called at most `n` times for the
-- thread, and at most `n + 1` comments are asked of the platform; neither exceeds the turns that
-- are counted.
pub handle_conversation_reply-Bounded :
    (k : ConversationThreadKey) (n : ℕ) (requests : List Request)
    → All (AllowsAtMost k n) requests
    → Bounded k n (run requests nothing_yet)
unfolding count get_conversation_turn_count
handle_conversation_reply-Bounded k n requests h = run_from k n requests nothing_yet h (record {
  asks_le = omega arith;
  posts_le = omega arith;
  asks_turns = omega arith;
  posts_turns = omega arith;
})
