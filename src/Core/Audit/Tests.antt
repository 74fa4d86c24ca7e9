-- ===== src/Core/Audit/Tests.antt =====
-- Two rows, under a hash that is the length of the text, 64 times.
use review_agent.Common.{
  ◌≡◌, ◌⊎◌, refl, true, none, some, List, [], ◌∷◌, ◌++◌, map, Text, text, text_eq, length, repeat,
}
use review_agent.Core.Audit.{
  AuditEvent, ChainLink, Codec, canonical_payload, compute_audit_hash, verify_audit_chain,
  append_audit_row,
}
use review_agent.Core.Audit.Chain.{last_hash, written}
use review_agent.Core.Audit.Tamper.{Collision, contents, verified-contents}

abbrev codec : Codec
codec = record {
  to_iso_string = λ n. n ∷ [];
  string = λ n. n ∷ [];
  stringify = λ o. o.ts ++ o.event;
  sha256 = λ t. repeat 64 (length t);
}

abbrev event : Text → AuditEvent
event name = record {
  ts = none;
  installation_id = some 7;
  pr_id = none;
  event = name;
  model = none;
  input_tokens = none;
  output_tokens = none;
}

abbrev rows : List ChainLink
rows = written codec none ((event (text "a"), 1) ∷ (event (text "bc"), 2) ∷ [])

abbrev later_rows : List ChainLink
later_rows =
    written codec (last_hash codec none (written codec none ((event (text "a"), 1) ∷ [])))
      ((event (text "bc"), 2) ∷ [])

rows_verify : (verify_audit_chain codec rows).ok ≡ true
unfolding verify_audit_chain append_audit_row compute_audit_hash canonical_payload text_eq
rows_verify = refl

verified-contents_example :
    (map (contents codec) rows ≡ map (contents codec) rows) ⊎ Collision codec
verified-contents_example =
    verified-contents codec (λ t. refl) rows rows refl rows_verify rows_verify refl
