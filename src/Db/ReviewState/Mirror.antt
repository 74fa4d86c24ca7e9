-- ===== src/Db/ReviewState/Mirror.antt =====
-- packages/db/src/review-state.ts: what is read after a write and after a load, and the keys of the
-- rows that the mirror writes.
use review_agent.Common.{
  ℕ, ◌≡◌, refl, true, false, inl, inr, Option, none, some, [], ◌∷◌, All, Text, text_eq,
  text_eq_refl, text_eq_iff, is_empty, Bool-cases, arith, if◌then◌else◌,
}
use review_agent.Core.Review.{ReviewState}
use review_agent.Db.ReviewState.{
  ReviewStateRow, Table, ReviewStateLookup, id_for, select, read, upsert, differs, resolve, stored,
  load_review_state,
}

module _ (now : ℕ) (q : ReviewStateLookup) (sha : Text) (state : ReviewState) where
  -- A write is read by every lookup with the same key, and by no other.
  read-upsert :
      (p : ReviewStateLookup) (table : Table)
      → read p (upsert now q sha state table)
        ≡ (if text_eq (id_for q) (id_for p) then some state else read p table)
  unfolding read upsert select
  read-upsert p [] = ground arith
  read-upsert p (r ∷ rows) = ground (
    arith,
    read-upsert p rows,
    text_eq_iff r.id (id_for q),
    text_eq_iff r.id (id_for p),
    text_eq_iff (id_for q) (id_for p),
  )

  read-upsert_self : (table : Table) → read q (upsert now q sha state table) ≡ some state
  read-upsert_self table = rw (read-upsert q table, text_eq_refl (id_for q)) refl

-- a table that the mirror has written
pub data Written : Table → Type 0 where
  empty : Written []
  write :
      (now : ℕ) (q : ReviewStateLookup) (sha : Text) (state : ReviewState) {table : Table}
      → Written table
      → Written (upsert now q sha state table)

abbrev pub HasKey : ReviewStateRow → Type 0
HasKey r = (q : ReviewStateLookup) × (r.id ≡ id_for q)

module _ (now : ℕ) (q : ReviewStateLookup) (sha : Text) (state : ReviewState) where
  upsert-HasKey : (table : Table) → All HasKey table → All HasKey (upsert now q sha state table)
  unfolding upsert
  upsert-HasKey [] h = ((q, refl), tt)
  upsert-HasKey (r ∷ rows) (hr, h) = elim (Bool-cases (text_eq r.id (id_for q))) [
    | inl same ↦ rw same (hr, h)
    | inr other ↦ rw other (hr, upsert-HasKey rows h)
  ]

pub Written-HasKey : {table : Table} → Written table → All HasKey table
Written-HasKey empty = tt
Written-HasKey (write now q sha state w) = upsert-HasKey now q sha state _ (Written-HasKey w)

module _ (now : ℕ) (q : ReviewStateLookup) (hidden : ReviewState) (table : Table) where
  abbrev pub Agreed : Option ReviewState → Table → Type 0
  Agreed o t =
      (s : ReviewState) × (o ≡ some s) × (read q t ≡ some s) × (s.reviewed_at ≡ hidden.reviewed_at)

  replaced-Agreed :
      (m : Option ReviewState)
      → read q table ≡ m
      → is_empty hidden.last_reviewed_sha ≡ false
      → differs m hidden ≡ true
      → Agreed (resolve m (some hidden)).0 (stored now q table (resolve m (some hidden)).1)
  replaced-Agreed m e full d =
      rw (d, full)
        (hidden, refl, read-upsert_self now q hidden.last_reviewed_sha hidden table, refl)

  kept-Agreed :
      (m : Option ReviewState)
      → read q table ≡ m
      → differs m hidden ≡ false
      → Agreed (resolve m (some hidden)).0 (stored now q table (resolve m (some hidden)).1)
  kept-Agreed none e d = cc
  kept-Agreed (some m) e d = rw d (m, refl, e, ground arith)

  -- If the pull request carries a state that names its last commit, what is loaded was reviewed at
  -- the time of that state, and the mirror holds it afterwards.
  pub load_review_state-Agreed :
      is_empty hidden.last_reviewed_sha ≡ false
      → Agreed
          (load_review_state now q (some hidden) table).0
          (load_review_state now q (some hidden) table).1
  unfolding load_review_state
  load_review_state-Agreed full = elim (Bool-cases (differs (read q table) hidden)) [
    | inl new ↦ replaced-Agreed (read q table) refl full new
    | inr old ↦ kept-Agreed (read q table) refl old
  ]
