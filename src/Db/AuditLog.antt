-- ===== src/Db/AuditLog.antt =====
-- packages/db/src/audit-log.ts, hmac-chain.ts and audit-retention.ts: the chain of audit rows in its
-- table. The table is the list of its rows by rising id; an append reads and writes in one step.
pub mod Kept
pub mod Mixed
mod Tests
use review_agent.Common.{
  ℕ, ◌-◌, Bool, true, false, Option, none, some, or_default, List, [], ◌∷◌, ◌++◌, filter, map,
  length, Text, ltb, ◌==◌, if◌then◌else◌,
}
use review_agent.Core.Audit.{
  audit_genesis_hash, AuditEvent, ChainLink, Codec, ChainBreak, Verification, verify_audit_chain,
  verify_audit_chain_segment, append_audit_row,
}

abbrev pub Table : Type 0
Table = List ChainLink

-- the hash of the row with the highest id
abbrev pub latest_hash : Table → Option Text
latest_hash [] = none
latest_hash (r ∷ []) = some r.hash
latest_hash (r ∷ s ∷ rows) = latest_hash (s ∷ rows)

-- the columns that are read for a verification
abbrev pub link_of : ChainLink → ChainLink
link_of r = record r { prev_hash = some (or_default r.prev_hash audit_genesis_hash) }

abbrev pub is_of : ℕ → Option ℕ → Bool
is_of id none = false
is_of id (some i) = i == id

abbrev pub of_installation : Option ℕ → Table → Table
of_installation none rows = rows
of_installation (some id) rows = filter (λ r. is_of id r.installation_id) rows

pub record ChainVerificationReport : Type 0 where
  pub ok : Bool
  pub rows_checked : ℕ
  pub breaks : List ChainBreak

abbrev pub report : List ChainLink → Verification → ChainVerificationReport
report links v = record { ok = v.ok; rows_checked = length links; breaks = v.breaks }

module _ (codec : Codec) where
  unfoldable pub append_to_table : AuditEvent → (now : ℕ) → Table → ChainLink × Table
  unfolding append_audit_row
  append_to_table ev now rows =
      let row = append_audit_row codec (latest_hash rows) ev now in (row, rows ++ (row ∷ []))

  unfoldable pub verify_audit_chain_from_db :
      (installation_id : Option ℕ) → Table → ChainVerificationReport
  unfolding verify_audit_chain
  verify_audit_chain_from_db id rows =
      let links = map link_of (of_installation id rows) in
      report links (verify_audit_chain codec links)

  unfoldable pub verify_audit_chain_segment_from_db :
      (installation_id : Option ℕ) → Table → ChainVerificationReport
  unfolding verify_audit_chain_segment
  verify_audit_chain_segment_from_db id rows =
      let links = map link_of (of_installation id rows) in
      report links (verify_audit_chain_segment codec links)

pub record PruneAuditResult : Type 0 where
  pub deleted : ℕ
  pub anchor_hash : Option Text

-- the rows from the newest one that is older than a time
unfoldable pub from_anchor : (before : ℕ) → Table → Option Table
from_anchor before [] = none
from_anchor before (r ∷ rows) = elim (from_anchor before rows) [
  | some left ↦ some left
  | none ↦ if ltb r.ts before then some (r ∷ rows) else none
]

abbrev pub first_hash : Table → Option Text
first_hash [] = none
first_hash (r ∷ rows) = some r.hash

abbrev pub pruned_to : Table → Option Table → PruneAuditResult × Table
pruned_to rows none = (record { deleted = 0; anchor_hash = none }, rows)
pruned_to rows (some left) =
    (record { deleted = length rows - length left; anchor_hash = first_hash left }, left)

unfoldable pub prune_audit_log : (before : ℕ) → Table → PruneAuditResult × Table
unfolding from_anchor
prune_audit_log before rows = pruned_to rows (from_anchor before rows)
