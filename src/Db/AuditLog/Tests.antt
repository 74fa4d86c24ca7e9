-- ===== src/Db/AuditLog/Tests.antt =====
-- Three rows, under a hash that is the last code unit of a text.
use review_agent.Common.{
  ℕ, ◌≡◌, ◌≢◌, refl, sym, ◌∙◌, true, none, some, List, [], ◌∷◌, ◌++◌, Text, text, text_eq, arith,
  length,
}
use review_agent.Core.Audit.{
  AuditEvent, ChainLink, Codec, compute_audit_hash, canonical_payload, append_audit_row,
}
use review_agent.Core.Audit.Tamper.{Collision}
use review_agent.Db.AuditLog.{Table, verify_audit_chain_from_db, verify_audit_chain_segment_from_db}
use review_agent.Db.AuditLog.Kept
use review_agent.Db.AuditLog.Kept.{append, prune, run, verify_audit_chain_segment_from_db-run}
use review_agent.Db.AuditLog.Mixed.{verify_audit_chain_from_db-Collision}

abbrev last : Text → Text
last [] = []
last (c ∷ []) = c ∷ []
last (c ∷ d ∷ t) = last (d ∷ t)

abbrev codec : Codec
codec = record {
  to_iso_string = λ n. n ∷ [];
  string = λ n. n ∷ [];
  stringify = λ o. o.event ++ o.ts;
  sha256 = last;
}

abbrev event : ℕ → AuditEvent
event id = record {
  ts = none;
  installation_id = some id;
  pr_id = none;
  event = text "review";
  model = none;
  input_tokens = none;
  output_tokens = none;
}

abbrev commands : List Kept.Command
commands =
    append (event 1) 10
    ∷ append (event 2) 20
    ∷ append (event 1) 30
    ∷ prune 25
    ∷ append (event 2) 40
    ∷ []

three_are_left : length (run codec commands []) ≡ 3
unfolding run
three_are_left = refl

verify_audit_chain_segment_from_db-run_example :
    (verify_audit_chain_segment_from_db codec none (run codec commands [])).ok ≡ true
verify_audit_chain_segment_from_db-run_example =
    verify_audit_chain_segment_from_db-run codec commands

abbrev three_appends : List Kept.Command
three_appends = append (event 1) 10 ∷ append (event 2) 20 ∷ append (event 1) 30 ∷ []

abbrev one_row : ChainLink
one_row = append_audit_row codec none (event 1) 10

abbrev two_row : ChainLink
two_row = append_audit_row codec (some one_row.hash) (event 2) 20

abbrev three_row : ChainLink
three_row = append_audit_row codec (some two_row.hash) (event 1) 30

abbrev three_rows : Table
three_rows = one_row ∷ two_row ∷ three_row ∷ []

appended : run codec three_appends [] ≡ three_rows
unfolding run
appended = refl

whole_verifies : (verify_audit_chain_from_db codec none three_rows).ok ≡ true
unfolding verify_audit_chain_from_db text_eq append_audit_row compute_audit_hash canonical_payload
whole_verifies = refl

own_rows_verify : (verify_audit_chain_from_db codec (some 1) three_rows).ok ≡ true
unfolding verify_audit_chain_from_db text_eq append_audit_row compute_audit_hash canonical_payload
own_rows_verify = refl

first_hash_lem : one_row.hash ≡ 10 ∷ []
unfolding append_audit_row compute_audit_hash canonical_payload
first_hash_lem = refl

second_hash_lem : two_row.hash ≡ 20 ∷ []
unfolding append_audit_row compute_audit_hash canonical_payload
second_hash_lem = refl

ten_ne_twenty : ◌≡◌ {A = Text} (10 ∷ []) (20 ∷ []) → ⊥
ten_ne_twenty q = ground arith

hashes_differ : one_row.hash ≢ two_row.hash
hashes_differ h = ten_ne_twenty (sym first_hash_lem ∙ h ∙ second_hash_lem)

verify_audit_chain_from_db-Collision_example : Collision codec
unfolding append_audit_row
verify_audit_chain_from_db-Collision_example =
    verify_audit_chain_from_db-Collision codec 1 [] one_row [] two_row three_row [] refl tt refl
      refl three_appends appended hashes_differ own_rows_verify
