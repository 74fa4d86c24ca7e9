-- ===== src/Core/Audit/Tamper.antt =====
-- A verified chain cannot be rewritten without a collision of the hash.
use review_agent.Common.{
  ◌≡◌, ◌≢◌, ◌⊎◌, refl, sym, ap, ◌∙◌, true, inl, inr, none, some, List, [], ◌∷◌, ◌++◌, map, Text,
  text_eq, text_eq_iff, length, append-injective, arith, Bool-cases,
}
use mathlib.Core.Path.{ap₂}
use mathlib.Core.Option.{some-injective}
use review_agent.Core.Audit.{
  audit_genesis_hash, ChainLink, Codec, event_of, canonical_payload, compute_audit_hash,
  expected_hash, verify_audit_chain,
}
use review_agent.Core.Audit.Chain.{Chained, last_hash, verify_audit_chain-Chained}

-- two texts with the same hash
pub record Collision (codec : Codec) : Type 0 where
  pub left : Text
  pub right : Text
  pub different : left ≢ right
  pub same_hash : codec.sha256 left ≡ codec.sha256 right

module _ (codec : Codec) where
  -- what the hash covers
  abbrev pub contents : ChainLink → Text
  contents row = canonical_payload codec (event_of row) row.ts

  same_hash_cases : (a b : Text) → codec.sha256 a ≡ codec.sha256 b → (a ≡ b) ⊎ Collision codec
  same_hash_cases a b h = elim (Bool-cases (text_eq a b)) [
    | inl e ↦ inl ((text_eq_iff a b).0 e)
    | inr e ↦ inr (record {
      left = a;
      right = b;
      different = λ q. ground (arith, text_eq_iff a b);
      same_hash = h;
    })
  ]

  module _ (digest_length : (t : Text) → length (codec.sha256 t) ≡ 64) where
    hash_length : (prev : Text) (row : ChainLink) → length (expected_hash codec prev row) ≡ 64
    unfolding compute_audit_hash
    hash_length prev row = digest_length (prev ++ canonical_payload codec (event_of row) row.ts)

    row_cases :
        (prev prev' : Text) (row row' : ChainLink)
        → length prev ≡ length prev'
        → row.hash ≡ expected_hash codec prev row
        → row'.hash ≡ expected_hash codec prev' row'
        → row.hash ≡ row'.hash
        → ((prev ≡ prev') × (contents row ≡ contents row')) ⊎ Collision codec
    unfolding compute_audit_hash
    row_cases prev prev' row row' l h h' e =
        elim (same_hash_cases (prev ++ contents row) (prev' ++ contents row') (sym h ∙ e ∙ h')) [
          | inl q ↦ let (p, s) = append-injective prev prev' _ _ l q in inl (p, s)
          | inr c ↦ inr c
        ]

    Chained-cases :
        (prev prev' : Text) (rows rows' : List ChainLink)
        → length prev ≡ length prev'
        → length rows ≡ length rows'
        → Chained codec prev rows
        → Chained codec prev' rows'
        → last_hash codec (some prev) rows ≡ last_hash codec (some prev') rows'
        → ((prev ≡ prev') × (map contents rows ≡ map contents rows')) ⊎ Collision codec
    Chained-cases prev prev' [] [] l n h h' e = inl (some-injective prev prev' e, refl)
    Chained-cases prev prev' [] (r ∷ rows') l n h h' e = absurd (omega (arith, n))
    Chained-cases prev prev' (r ∷ rows) [] l n h h' e = absurd (omega (arith, n))
    Chained-cases prev prev' (row ∷ rows) (row' ∷ rows') l n (h, hs) (h', hs') e =
        elim (Chained-cases row.hash row'.hash rows rows'
          (ap length h ∙ hash_length prev row ∙ sym (hash_length prev' row') ∙ sym (ap length h'))
          (omega (arith, n)) hs hs' e) [
            | inr c ↦ inr c
            | inl (q, same) ↦ elim (row_cases prev prev' row row' l h h' q) [
              | inr c ↦ inr c
              | inl (p, d) ↦ inl (p, ap₂ (λ x xs. x ∷ xs) d same)
            ]
          ]

    -- Let every hash have 64 characters. Then two chains of the same length that both verify and end
    -- with the same hash have the same canonical payloads row by row, or give two different texts
    -- with the same hash.
    pub verified-contents :
        (rows rows' : List ChainLink)
        → length rows ≡ length rows'
        → (verify_audit_chain codec rows).ok ≡ true
        → (verify_audit_chain codec rows').ok ≡ true
        → last_hash codec none rows ≡ last_hash codec none rows'
        → (map contents rows ≡ map contents rows') ⊎ Collision codec
    verified-contents [] [] n h h' e = inl refl
    verified-contents [] (r ∷ rows') n h h' e = absurd (omega (arith, n))
    verified-contents (r ∷ rows) [] n h h' e = absurd (omega (arith, n))
    verified-contents (r ∷ rows) (r' ∷ rows') n h h' e =
        elim (Chained-cases audit_genesis_hash audit_genesis_hash (r ∷ rows) (r' ∷ rows') refl n
          ((verify_audit_chain-Chained codec (r ∷ rows)).0 h)
          ((verify_audit_chain-Chained codec (r' ∷ rows')).0 h') e) [
            | inl (_, same) ↦ inl same
            | inr c ↦ inr c
          ]
