-- ===== src/Server/Worker.antt =====
-- packages/server/src/worker.ts: one message of the queue, and one tick of each cleanup. The handler
-- is a step on a state of its own; the calls of the database are parameters, and what a tick calls
-- is logged in order. The timers are left out.
pub mod Debounce
pub mod Ticks
mod Tests
use review_agent.Common.{
  ℕ, ◌+◌, ◌-◌, ◌*◌, Bool, true, false, Option, none, some, or_default, List, [], ◌∷◌, ◌++◌, Text,
  text, text_eq, is_empty, decimal, Result, ok, err, ltb, not, ◌&&◌, if◌then◌else◌,
}
use review_agent.Core.Queue.{JobMessage, PrRef}
use review_agent.Db.ReviewState.{ReviewStateRow}

abbrev pub default_debounce_ms : ℕ
default_debounce_ms = 5000

unfoldable pub state_id : PrRef → Text
state_id r = r.owner ++ (b'/' ∷ r.repo ++ (b'#' ∷ decimal r.number))

-- an age below the window, also where the row is newer than the clock
abbrev pub is_recent : (window now : ℕ) → ReviewStateRow → Bool
is_recent window now r = ltb now (r.updated_at + window)

abbrev pub superseded : (head_sha : Text) → (window now : ℕ) → Option ReviewStateRow → Bool
superseded head_sha window now none = false
superseded head_sha window now (some r) =
    not (text_eq r.head_sha head_sha) && is_recent window now r

abbrev pub debounced_by :
    Result Text (Option ReviewStateRow) → Text → (window now : ℕ) → Result Text Bool
debounced_by (err e) head_sha window now = err e
debounced_by (ok row) head_sha window now = ok (superseded head_sha window now row)

module _ (select : Text → Result Text (Option ReviewStateRow)) (debounce_window_ms : Option ℕ) where
  abbrev pub with_head : (now : ℕ) → PrRef → Option Text → Result Text Bool
  with_head now r none = ok false
  with_head now r (some []) = ok false
  with_head now r (some (c ∷ head_sha)) =
      debounced_by (select (state_id r)) (c ∷ head_sha)
        (or_default debounce_window_ms default_debounce_ms) now

  unfoldable pub should_debounce : (now : ℕ) → JobMessage → Result Text Bool
  unfolding state_id text_eq
  should_debounce now m =
      if text_eq m.triggered_by (text "pull_request.synchronize")
      then with_head now m.pr_ref m.pr_ref.head_sha
      else ok false

  module _ {S : Type 0} (handler : JobMessage → S → Result Text S) where
    abbrev pub handled : JobMessage → S → Result Text Bool → Result Text S
    handled m s (err e) = err e
    handled m s (ok true) = ok s
    handled m s (ok false) = handler m s

    -- what the worker gives the queue to run for a message
    unfoldable pub on_message : (now : ℕ) → JobMessage → S → Result Text S
    unfolding should_debounce
    on_message now m s = handled m s (should_debounce now m)

pub data LockKey : Type 0 where
  cleanup_lock review_history_cleanup_lock : LockKey

pub data Command : Type 0 where
  try_lock unlock : LockKey → Command
  delete_deliveries : (cutoff : ℕ) → Command
  delete_history : (now : ℕ) → Command
  pruned : ℕ → Command

-- the answers of the database; `got` is there if the row says so, and a deletion may count its rows
pub record Answers : Type 0 where
  pub got : LockKey → Result Text (Option Bool)
  pub deleted : Result Text (Option ℕ)
  pub unlocked : LockKey → Result Text (Unit {0})

abbrev pub Tick : Type 0
Tick = Result Text (Unit {0}) × List Command

-- `finally`: the lock is given back, and its error is the one that is thrown
abbrev pub finally : Answers → LockKey → Tick → Tick
finally a key (r, log) =
    (elim (a.unlocked key) [ ok u ↦ r | err e ↦ err e ], log ++ (unlock key ∷ []))

abbrev pub after_lock : LockKey → Result Text (Option Bool) → Tick → Tick
after_lock key (err e) body = (err e, try_lock key ∷ [])
after_lock key (ok none) body = (ok tt, try_lock key ∷ [])
after_lock key (ok (some false)) body = (ok tt, try_lock key ∷ [])
after_lock key (ok (some true)) body = (body.0, try_lock key ∷ body.1)

abbrev pub ignore_count : Result Text (Option ℕ) → Result Text (Unit {0})
ignore_count (ok n) = ok tt
ignore_count (err e) = err e

-- a cutoff before the beginning of time is that beginning
abbrev pub cutoff_of : (now : ℕ) → (retention_days : Option ℕ) → ℕ
cutoff_of now retention_days = now - or_default retention_days 7 * 86400000

unfoldable pub idempotency_tick : Answers → (now : ℕ) → (retention_days : Option ℕ) → Tick
idempotency_tick a now retention_days = after_lock cleanup_lock (a.got cleanup_lock) (
    finally a cleanup_lock
      (ignore_count a.deleted, delete_deliveries (cutoff_of now retention_days) ∷ []))

abbrev pub report : Option ℕ → List Command
report none = []
report (some n) = if ltb 0 n then pruned n ∷ [] else []

abbrev pub counted_deletion : (now : ℕ) → Result Text (Option ℕ) → Tick
counted_deletion now (err e) = (err e, delete_history now ∷ [])
counted_deletion now (ok n) = (ok tt, delete_history now ∷ report n)

unfoldable pub review_history_tick : Answers → (now : ℕ) → Tick
review_history_tick a now =
    after_lock review_history_cleanup_lock (a.got review_history_cleanup_lock)
      (finally a review_history_cleanup_lock (counted_deletion now a.deleted))
