-- ===== src/Server/Worker/Tests.antt =====
-- A push that follows the review of another commit.
use review_agent.Common.{
  ◌+◌, ◌≡◌, refl, true, false, none, some, [], ◌∷◌, Text, text, decimal, ok, arith,
}
use review_agent.Core.Queue.{JobMessage, github}
use review_agent.Core.Review.{ReviewState}
use review_agent.Db.ReviewState.{
  ReviewStateLookup, Table, id_for, select, read, upsert, load_review_state,
}
use review_agent.Db.ReviewState.Mirror.{empty, write, Agreed, load_review_state-Agreed}
use review_agent.Server.Worker.{
  should_debounce, on_message, Answers, review_history_cleanup_lock, try_lock, unlock, pruned,
  delete_history, review_history_tick,
}
use review_agent.Server.Worker.Debounce.{on_message-Written}

abbrev push : JobMessage
push = record {
  job_id = text "j";
  installation_id = text "5";
  pr_ref = record {
    platform = github;
    owner = text "o";
    repo = text "r";
    number = 7;
    head_sha = some (text "bbbbbbb");
  };
  triggered_by = text "pull_request.synchronize";
  enqueued_at = text "t";
  path_scope = none;
}

abbrev reviewed : ReviewState
reviewed = record {
  last_reviewed_sha = text "aaaaaaa";
  base_sha = text "0000000";
  reviewed_at = 900;
  model_used = text "m";
  total_tokens = 1;
  total_cost = 1;
  comment_fingerprints = [];
}

abbrev key : ReviewStateLookup
key = record { installation_id = 5; pr_id = text "o/r#7" }

abbrev mirrored : Table
mirrored = upsert 1000 key (text "aaaaaaa") reviewed []

abbrev under : Text → Table
under id =
    record {
      id = id;
      installation_id = 5;
      pr_id = text "o/r#7";
      head_sha = text "aaaaaaa";
      state = reviewed;
      updated_at = 1000;
      paused = false;
    }
    ∷ []

-- a row under the key that the worker asks for would debounce the push
debounced : should_debounce (λ id. ok (select id (under (text "o/r#7")))) none 2000 push ≡ ok true
unfolding should_debounce select decimal
debounced = refl

too_old : should_debounce (λ id. ok (select id (under (text "o/r#7")))) none 6000 push ≡ ok false
unfolding should_debounce select decimal
too_old = refl

not_debounced : should_debounce (λ id. ok (select id mirrored)) none 2000 push ≡ ok false
unfolding should_debounce select upsert id_for decimal
not_debounced = refl

mirror_reads : read key mirrored ≡ some reviewed
unfolding read upsert id_for decimal
mirror_reads = refl

on_message-Written_example :
    on_message (λ id. ok (select id mirrored)) none (λ m n. ok (n + 1)) 2000 push 0 ≡ ok 1
on_message-Written_example =
    on_message-Written none 2000 push mirrored (λ m n. ok (n + 1)) 0 (omega arith)
      (write 1000 key (text "aaaaaaa") reviewed empty)

load_review_state-Agreed_example :
    Agreed 2000 key reviewed []
      (load_review_state 2000 key (some reviewed) []).0
      (load_review_state 2000 key (some reviewed) []).1
load_review_state-Agreed_example = load_review_state-Agreed 2000 key reviewed [] refl

abbrev answers : Answers
answers = record { got = λ k. ok (some true); deleted = ok (some 3); unlocked = λ k. ok tt }

history_is_pruned :
    (review_history_tick answers 9).1
    ≡ try_lock review_history_cleanup_lock
      ∷ delete_history 9
      ∷ pruned 3
      ∷ unlock review_history_cleanup_lock
      ∷ []
unfolding review_history_tick
history_is_pruned = refl
