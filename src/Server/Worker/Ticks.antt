-- ===== src/Server/Worker/Ticks.antt =====
-- packages/server/src/worker.ts: the lock of the cleanups.
use review_agent.Common.{
  ℕ, ◌≡◌, refl, Bool, true, false, Option, none, some, List, [], ◌∷◌, ◌++◌, ◌⊎◌, inl, inr, Text,
  Result, ok, err,
}
use review_agent.Server.Worker.{
  LockKey, cleanup_lock, review_history_cleanup_lock, Command, try_lock, unlock, delete_deliveries,
  Answers, Tick, finally, after_lock, idempotency_tick, review_history_tick, counted_deletion,
  cutoff_of, ignore_count,
}

module _ (a : Answers) where
  -- only the question for the lock; or, if it was got, what was done while it was held, and its
  -- return
  abbrev pub IsHeld : LockKey → List Command → Type 0
  IsHeld key log =
      (log ≡ try_lock key ∷ [])
      ⊎ ((a.got key ≡ ok (some true))
          × ((done : List Command) × (log ≡ try_lock key ∷ done ++ (unlock key ∷ []))))

  after_lock-IsHeld :
      (key : LockKey) (o : Result Text (Option Bool)) (body : Tick)
      → a.got key ≡ o
      → IsHeld key (after_lock key o (finally a key body)).1
  after_lock-IsHeld key (err e) body h = inl refl
  after_lock-IsHeld key (ok none) body h = inl refl
  after_lock-IsHeld key (ok (some false)) body h = inl refl
  after_lock-IsHeld key (ok (some true)) body h = inr (h, (body.1, refl))

  -- Whatever the database answers, a tick of either cleanup does nothing but ask for its lock, or
  -- has got it and gives it back last, also where the deletion throws.
  pub review_history_tick-IsHeld :
      (now : ℕ) (retention_days : Option ℕ)
      → IsHeld cleanup_lock (idempotency_tick a now retention_days).1
        × IsHeld review_history_cleanup_lock (review_history_tick a now).1
  unfolding idempotency_tick review_history_tick
  review_history_tick-IsHeld now retention_days = (
    after_lock-IsHeld cleanup_lock (a.got cleanup_lock)
        (ignore_count a.deleted, delete_deliveries (cutoff_of now retention_days) ∷ []) refl,
    after_lock-IsHeld review_history_cleanup_lock (a.got review_history_cleanup_lock)
        (counted_deletion now a.deleted) refl,
  )
