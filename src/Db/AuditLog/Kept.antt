-- ===== src/Db/AuditLog/Kept.antt =====
-- packages/db/src/audit-log.ts, hmac-chain.ts and audit-retention.ts: appends and prunes in any order
-- leave a table that verifies.
use review_agent.Common.{
  ℕ, ◌≡◌, refl, ap, ◌∙◌, true, Option, none, some, or_default, List, [], ◌∷◌, ◌++◌, map, Text, ltb,
  Option-cases, Bool-cases, inl, inr,
}
use mathlib.Core.Path.{subst}
use mathlib.Core.Option.{some-injective}
use review_agent.Core.Audit.{
  audit_genesis_hash, AuditEvent, ChainLink, Codec, append_audit_row, compute_audit_hash,
  canonical_payload,
}
use review_agent.Core.Audit.Chain.{IsLog, IsLog-suffix, IsLog-verify}
use review_agent.Db.AuditLog.{
  Table, latest_hash, link_of, append_to_table, verify_audit_chain_segment_from_db, from_anchor,
  pruned_to, prune_audit_log,
}

-- what is done to the table
pub data Command : Type 0 where
  append : AuditEvent → (now : ℕ) → Command
  prune : (before : ℕ) → Command

module _ (codec : Codec) where
  abbrev pub perform : Command → Table → Table
  perform (append ev now) rows = (append_to_table codec ev now rows).1
  perform (prune before) rows = (prune_audit_log before rows).1

  unfoldable pub run : List Command → Table → Table
  unfolding append_to_table prune_audit_log
  run [] rows = rows
  run (c ∷ commands) rows = run commands (perform c rows)

  append-IsLog :
      (prev : Text) (r : ChainLink) (rows : Table) (ev : AuditEvent) (now : ℕ)
      → IsLog codec prev (r ∷ rows)
      → IsLog codec prev
          ((r ∷ rows) ++ (append_audit_row codec (latest_hash (r ∷ rows)) ev now ∷ []))
  unfolding append_audit_row compute_audit_hash canonical_payload
  append-IsLog prev r [] ev now (p, h, _) = (p, h, (refl, refl, tt))
  append-IsLog prev r (s ∷ rows) ev now (p, h, l) = (p, h, append-IsLog r.hash s rows ev now l)

  -- a table whose rows hang together after some hash
  abbrev pub Holds : Table → Type 0
  Holds rows = (prev : Text) × IsLog codec prev rows

  append_to_table-Holds :
      (ev : AuditEvent) (now : ℕ) (rows : Table)
      → Holds rows
      → Holds (append_to_table codec ev now rows).1
  unfolding append_to_table append_audit_row compute_audit_hash canonical_payload
  append_to_table-Holds ev now [] h = (audit_genesis_hash, (refl, refl, tt))
  append_to_table-Holds ev now (r ∷ rows) (prev, l) = (prev, append-IsLog prev r rows ev now l)

  from_anchor-suffix :
      (before : ℕ) (rows left : Table)
      → from_anchor before rows ≡ some left
      → (removed : Table) × (rows ≡ removed ++ left)
  unfolding from_anchor
  from_anchor-suffix before [] left e = cc
  from_anchor-suffix before (r ∷ rows) left e = elim (Option-cases (from_anchor before rows)) [
    | inr (rest, found) ↦
        let q : some rest ≡ some left = rw found at e in
        let (removed, s) = from_anchor-suffix before rows left (found ∙ q) in
        (r ∷ removed, ap (λ t. r ∷ t) s)
    | inl absent ↦ elim (Bool-cases (ltb r.ts before)) [
      | inl old ↦
          let q : some (r ∷ rows) ≡ some left = rw old at (rw absent at e) in
          ([], some-injective _ _ q)
      | inr new ↦ let q : none ≡ some left = rw new at (rw absent at e) in cc
    ]
  ]

  pruned_to-Holds :
      (before : ℕ) (rows : Table) (o : Option Table)
      → from_anchor before rows ≡ o
      → Holds rows
      → Holds (pruned_to rows o).1
  pruned_to-Holds before rows none e h = h
  pruned_to-Holds before rows (some left) e (prev, l) =
      let (removed, s) = from_anchor-suffix before rows left e in
      IsLog-suffix codec prev removed left (subst (IsLog codec prev) s l)

  pub run-Holds : (commands : List Command) (rows : Table) → Holds rows → Holds (run commands rows)
  unfolding run prune_audit_log
  run-Holds [] rows h = h
  run-Holds (append ev now ∷ commands) rows h =
      run-Holds commands _ (append_to_table-Holds ev now rows h)
  run-Holds (prune before ∷ commands) rows h =
      run-Holds commands _ (pruned_to-Holds before rows _ refl h)

  links-IsLog :
      (prev : Text) (rows : Table) → IsLog codec prev rows → IsLog codec prev (map link_of rows)
  links-IsLog prev [] l = tt
  links-IsLog prev (r ∷ rows) (p, h, l) =
      (ap (λ o. some (or_default o audit_genesis_hash)) p, h, links-IsLog r.hash rows l)

  -- However appends and prunes follow one another on a table that was empty, its rows verify as a
  -- segment.
  pub verify_audit_chain_segment_from_db-run :
      (commands : List Command)
      → (verify_audit_chain_segment_from_db codec none (run commands [])).ok ≡ true
  unfolding verify_audit_chain_segment_from_db
  verify_audit_chain_segment_from_db-run commands =
      let (prev, l) = run-Holds commands [] (audit_genesis_hash, tt) in
      IsLog-verify codec prev (map link_of (run commands [])) (links-IsLog prev (run commands []) l)
