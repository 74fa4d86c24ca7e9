-- ===== src/Core/Audit.antt =====
-- packages/core/src/audit.ts: the chain of audit rows. A time is a number of milliseconds, an absent
-- field and a null one are both `none`. The hash, JSON and the writing of dates and integers are
-- functions of libraries, and parameters.
pub mod Chain
pub mod Tamper
mod Tests
use review_agent.Common.{
  ℕ, ◌+◌, Bool, true, false, Option, none, some, or_default, List, [], ◌∷◌, ◌++◌, Text, text_eq,
  length, ◌==◌, if◌then◌else◌, repeat,
}

-- `'0'.repeat(64)`
abbrev pub audit_genesis_hash : Text
audit_genesis_hash = repeat 64 b'0'

pub record AuditEvent : Type 0 where
  pub ts : Option ℕ
  pub installation_id : Option ℕ
  pub pr_id : Option Text
  pub event : Text
  pub model : Option Text
  pub input_tokens : Option ℕ
  pub output_tokens : Option ℕ

-- a row of the table; an `AuditRow` has the same fields
pub record ChainLink : Type 0 where
  pub prev_hash : Option Text
  pub hash : Text
  pub ts : ℕ
  pub event : Text
  pub installation_id : Option ℕ
  pub pr_id : Option Text
  pub model : Option Text
  pub input_tokens : Option ℕ
  pub output_tokens : Option ℕ

-- the object `ordered`, with its keys in this order
pub record Ordered : Type 0 where
  pub ts : Text
  pub installation_id : Option Text
  pub pr_id : Option Text
  pub event : Text
  pub model : Option Text
  pub input_tokens : Option ℕ
  pub output_tokens : Option ℕ

pub record Codec : Type 0 where
  pub to_iso_string : ℕ → Text
  pub string : ℕ → Text
  pub stringify : Ordered → Text
  pub sha256 : Text → Text

pub record ChainBreak : Type 0 where
  pub index : ℕ
  pub expected : Text
  pub actual : Text
  pub row : ChainLink

pub record Verification : Type 0 where
  pub ok : Bool
  pub breaks : List ChainBreak

abbrev pub verification : List ChainBreak → Verification
verification breaks = record { ok = length breaks == 0; breaks = breaks }

abbrev pub map_option : (ℕ → Text) → Option ℕ → Option Text
map_option f none = none
map_option f (some n) = some (f n)

-- a row as an event
abbrev pub event_of : ChainLink → AuditEvent
event_of row = record {
  ts = some row.ts;
  installation_id = row.installation_id;
  pr_id = row.pr_id;
  event = row.event;
  model = row.model;
  input_tokens = row.input_tokens;
  output_tokens = row.output_tokens;
}

module _ (codec : Codec) where
  abbrev pub ordered : AuditEvent → ℕ → Ordered
  ordered ev ts = record {
    ts = codec.to_iso_string ts;
    installation_id = map_option codec.string ev.installation_id;
    pr_id = ev.pr_id;
    event = ev.event;
    model = ev.model;
    input_tokens = ev.input_tokens;
    output_tokens = ev.output_tokens;
  }

  unfoldable pub canonical_payload : AuditEvent → ℕ → Text
  canonical_payload ev ts = codec.stringify (ordered ev ts)

  unfoldable pub compute_audit_hash : Text → AuditEvent → ℕ → Text
  compute_audit_hash prev_hash ev ts = codec.sha256 (prev_hash ++ canonical_payload ev ts)

  -- the hash that a row should have after `prev`
  abbrev pub expected_hash : Text → ChainLink → Text
  expected_hash prev row = compute_audit_hash prev (event_of row) row.ts

  -- the rounds of `rows.forEach`, with the breaks that they push
  unfoldable pub breaks_from : Text → ℕ → List ChainLink → List ChainBreak
  breaks_from prev index [] = []
  breaks_from prev index (row ∷ rows) =
      let rest = breaks_from row.hash (index + 1) rows in
      if text_eq row.hash (expected_hash prev row)
      then rest
      else record { index = index; expected = expected_hash prev row; actual = row.hash; row = row }
        ∷ rest

  unfoldable pub verify_audit_chain : List ChainLink → Verification
  unfolding breaks_from
  verify_audit_chain rows = verification (breaks_from audit_genesis_hash 0 rows)

  unfoldable pub verify_audit_chain_segment : List ChainLink → Verification
  unfolding breaks_from
  verify_audit_chain_segment [] = record { ok = true; breaks = [] }
  verify_audit_chain_segment (head ∷ rows) =
      verification (breaks_from (or_default head.prev_hash audit_genesis_hash) 0 (head ∷ rows))

  unfoldable pub append_audit_row : Option Text → AuditEvent → (now : ℕ) → ChainLink
  append_audit_row prev_hash ev now = record {
    prev_hash = some (or_default prev_hash audit_genesis_hash);
    hash = compute_audit_hash (or_default prev_hash audit_genesis_hash) ev (or_default ev.ts now);
    ts = or_default ev.ts now;
    event = ev.event;
    installation_id = ev.installation_id;
    pr_id = ev.pr_id;
    model = ev.model;
    input_tokens = ev.input_tokens;
    output_tokens = ev.output_tokens;
  }
