-- ===== src/Core/Audit/Chain.antt =====
-- Which chains verify, and that appended rows do.
use review_agent.Common.{
  ℕ, ◌+◌, ◌≡◌, ◌↔◌, refl, ap, ◌∙◌, true, Option, none, some, or_default, List, [], ◌∷◌, ◌++◌, Text,
  text_eq_iff, length, ◌==◌, arith,
}
use review_agent.Core.Audit.{
  audit_genesis_hash, AuditEvent, ChainLink, Codec, canonical_payload, compute_audit_hash,
  expected_hash, breaks_from, verify_audit_chain, verify_audit_chain_segment, append_audit_row,
}

module _ (codec : Codec) where
  -- every row has the hash of its contents and of the hash before it
  abbrev pub Chained : Text → List ChainLink → Type 0
  Chained prev [] = Unit
  Chained prev (row ∷ rows) = (row.hash ≡ expected_hash codec prev row) × Chained row.hash rows

  breaks_from-Chained :
      (prev : Text) (index : ℕ) (rows : List ChainLink)
      → (length (breaks_from codec prev index rows) ≡ 0) ↔ Chained prev rows
  unfolding breaks_from
  breaks_from-Chained prev index [] = (λ _. tt, λ _. refl)
  breaks_from-Chained prev index (row ∷ rows) = ground (
    arith,
    text_eq_iff row.hash (expected_hash codec prev row),
    breaks_from-Chained row.hash (index + 1) rows,
  )

  -- The verification succeeds exactly if every row has the hash of its contents and of the hash
  -- before it, the first after the genesis hash.
  pub verify_audit_chain-Chained :
      (rows : List ChainLink)
      → ((verify_audit_chain codec rows).ok ≡ true) ↔ Chained audit_genesis_hash rows
  unfolding verify_audit_chain
  verify_audit_chain-Chained rows = ground (arith, breaks_from-Chained audit_genesis_hash 0 rows)

  -- what the writer of the next row reads
  abbrev pub last_hash : Option Text → List ChainLink → Option Text
  last_hash prev [] = prev
  last_hash prev (row ∷ rows) = last_hash (some row.hash) rows

  Chained-append :
      (prev : Option Text) (rows : List ChainLink) (ev : AuditEvent) (now : ℕ)
      → Chained (or_default prev audit_genesis_hash) rows
      → Chained
          (or_default prev audit_genesis_hash)
          (rows ++ (append_audit_row codec (last_hash prev rows) ev now ∷ []))
  unfolding append_audit_row compute_audit_hash canonical_payload
  Chained-append prev [] ev now h = (refl, tt)
  Chained-append prev (row ∷ rows) ev now (e, h) = (e, Chained-append (some row.hash) rows ev now h)

  -- If a chain verifies, then so does the chain with one more row that is made from the hash of its
  -- last row, or from none where the chain is empty.
  pub verify_audit_chain-append :
      (rows : List ChainLink) (ev : AuditEvent) (now : ℕ)
      → (verify_audit_chain codec rows).ok ≡ true
      → (verify_audit_chain codec
          (rows ++ (append_audit_row codec (last_hash none rows) ev now ∷ []))).ok
        ≡ true
  verify_audit_chain-append rows ev now h =
      (verify_audit_chain-Chained _).1
        (Chained-append none rows ev now ((verify_audit_chain-Chained rows).0 h))

  -- the rows that are written for some events, one after another
  abbrev pub written : Option Text → List (AuditEvent × ℕ) → List ChainLink
  written prev [] = []
  written prev ((ev, now) ∷ evs) =
      append_audit_row codec prev ev now
      ∷ written (some (append_audit_row codec prev ev now).hash) evs

  -- every row also records the hash before it
  abbrev pub IsLog : Text → List ChainLink → Type 0
  IsLog prev [] = Unit
  IsLog prev (row ∷ rows) =
      (row.prev_hash ≡ some prev) × (row.hash ≡ expected_hash codec prev row) × IsLog row.hash rows

  written-IsLog :
      (prev : Option Text) (evs : List (AuditEvent × ℕ))
      → IsLog (or_default prev audit_genesis_hash) (written prev evs)
  unfolding append_audit_row compute_audit_hash canonical_payload
  written-IsLog prev [] = tt
  written-IsLog prev ((ev, now) ∷ evs) =
      (refl, refl, written-IsLog (some (append_audit_row codec prev ev now).hash) evs)

  pub IsLog-suffix :
      (prev : Text) (xs ys : List ChainLink) → IsLog prev (xs ++ ys) → (p : Text) × IsLog p ys
  IsLog-suffix prev [] ys h = (prev, h)
  IsLog-suffix prev (x ∷ xs) ys (_, _, h) = IsLog-suffix x.hash xs ys h

  IsLog-Chained : (prev : Text) (rows : List ChainLink) → IsLog prev rows → Chained prev rows
  IsLog-Chained prev [] h = tt
  IsLog-Chained prev (row ∷ rows) (_, e, h) = (e, IsLog-Chained row.hash rows h)

  pub IsLog-verify :
      (prev : Text) (rows : List ChainLink)
      → IsLog prev rows
      → (verify_audit_chain_segment codec rows).ok ≡ true
  unfolding verify_audit_chain_segment
  IsLog-verify prev [] h = refl
  IsLog-verify prev (row ∷ rows) (p, e, h) =
      ap (λ t. length (breaks_from codec (or_default t audit_genesis_hash) 0 (row ∷ rows)) == 0) p
      ∙ ap (λ n. n == 0)
          ((breaks_from-Chained prev 0 (row ∷ rows)).1 (e, IsLog-Chained row.hash rows h))

  -- Whatever events are written one after another, and however many of the oldest rows are removed,
  -- the rows that are left verify as a segment.
  pub verify_audit_chain_segment-written :
      (prev : Option Text) (evs : List (AuditEvent × ℕ)) (removed left : List ChainLink)
      → written prev evs ≡ removed ++ left
      → (verify_audit_chain_segment codec left).ok ≡ true
  verify_audit_chain_segment-written prev evs removed left e =
      let (p, h) =
        IsLog-suffix (or_default prev audit_genesis_hash) removed left
          (rw e at (written-IsLog prev evs)) in
      IsLog-verify p left h
