-- ===== src/Db/AuditLog/Mixed.antt =====
-- packages/db/src/audit-log.ts: the rows of one installation among those of others.
use review_agent.Common.{
  ℕ, ◌≡◌, ◌≢◌, refl, ap, sym, ◌∙◌, true, false, some, List, [], ◌∷◌, ◌++◌, map, map-append, filter,
  All, Text, length, length-append, append-injective, arith,
}
use mathlib.Core.Path.{subst}
use review_agent.Core.Audit.{
  ChainLink, Codec, audit_genesis_hash, canonical_payload, compute_audit_hash, expected_hash,
  event_of,
}
use review_agent.Core.Audit.Chain.{Chained, IsLog, IsLog-suffix, verify_audit_chain-Chained}
use review_agent.Core.Audit.Tamper.{Collision}
use review_agent.Db.AuditLog.{Table, is_of, link_of, verify_audit_chain_from_db}
use review_agent.Db.AuditLog.Kept.{Command, run, run-Holds}

append-cancel : (xs ys zs : Text) → xs ++ zs ≡ ys ++ zs → xs ≡ ys
append-cancel xs ys zs e =
    (append-injective xs ys zs zs
      (omega (arith, ap length e, length-append xs zs, length-append ys zs)) e).0

abbrev pub IsOwn : ℕ → ChainLink → Type 0
IsOwn id r = is_of id r.installation_id ≡ true

abbrev pub IsForeign : ℕ → ChainLink → Type 0
IsForeign id r = is_of id r.installation_id ≡ false

module _ (id : ℕ) where
  own_rows : Table → Table
  own_rows rows = filter (λ r. is_of id r.installation_id) rows

  own_rows-append : (xs ys : Table) → own_rows (xs ++ ys) ≡ own_rows xs ++ own_rows ys
  unfolding own_rows
  own_rows-append [] ys = refl
  own_rows-append (x ∷ xs) ys = ground (arith, own_rows-append xs ys)

  foreign_rows : (bs ys : Table) → All (IsForeign id) bs → own_rows (bs ++ ys) ≡ own_rows ys
  unfolding own_rows
  foreign_rows [] ys h = refl
  foreign_rows (b ∷ bs) ys (hb, h) = rw hb (foreign_rows bs ys h)

module _ (codec : Codec) where
  Chained-suffix :
      (prev : Text) (xs ys : List ChainLink)
      → Chained codec prev (xs ++ ys)
      → (p : Text) × Chained codec p ys
  Chained-suffix prev [] ys h = (prev, h)
  Chained-suffix prev (x ∷ xs) ys (_, h) = Chained-suffix x.hash xs ys h

  -- two hashes that both make the hash of a row
  same_next :
      (a b : Text) (c : ChainLink)
      → a ≢ b
      → c.hash ≡ expected_hash codec a c
      → c.hash ≡ expected_hash codec b c
      → Collision codec
  unfolding compute_audit_hash
  same_next a b c differ p q = record {
    left = a ++ canonical_payload codec (event_of c) c.ts;
    right = b ++ canonical_payload codec (event_of c) c.ts;
    different = λ e. differ (append-cancel a b (canonical_payload codec (event_of c) c.ts) e);
    same_hash = sym p ∙ q;
  }

  module _ (id : ℕ) (xs : Table) (a : ChainLink) (bs : Table) (b c : ChainLink) (zs : Table)
      (own : IsOwn id a) (foreign : All (IsForeign id) bs) (foreign' : IsForeign id b)
      (own' : IsOwn id c) where
    abbrev pub mixed : Table
    mixed = xs ++ (a ∷ (bs ++ (b ∷ c ∷ zs)))

    own_rows-mixed : own_rows id mixed ≡ own_rows id xs ++ (a ∷ c ∷ own_rows id zs)
    unfolding own_rows
    own_rows-mixed =
        own_rows-append id xs (a ∷ (bs ++ (b ∷ c ∷ zs)))
        ∙ ap (λ r. own_rows id xs ++ r)
            (rw own (
              ap (λ r. a ∷ r) (foreign_rows id bs (b ∷ c ∷ zs) foreign ∙ rw (foreign', own') refl)))

    logged : (prev : Text) → IsLog codec prev mixed → c.hash ≡ expected_hash codec b.hash c
    logged prev l =
        let (_, (_, _, after)) = IsLog-suffix codec prev xs (a ∷ (bs ++ (b ∷ c ∷ zs))) l in
        let (_, (_, _, (_, e, _))) = IsLog-suffix codec a.hash bs (b ∷ c ∷ zs) after in e

    verified_next :
        (verify_audit_chain_from_db codec (some id) mixed).ok ≡ true
        → c.hash ≡ expected_hash codec a.hash c
    unfolding verify_audit_chain_from_db own_rows
    verified_next v =
        let all = (verify_audit_chain-Chained codec (map link_of (own_rows id mixed))).0 v in
        let split =
          ap (map link_of) own_rows-mixed
          ∙ map-append link_of (own_rows id xs) (a ∷ c ∷ own_rows id zs) in
        let (_, (_, (e, _))) =
          Chained-suffix audit_genesis_hash (map link_of (own_rows id xs))
            (link_of a ∷ link_of c ∷ map link_of (own_rows id zs))
            (subst (Chained codec audit_genesis_hash) split all) in
        e

    -- However appends and prunes follow one another on a table that was empty: if between two rows
    -- of one installation there are rows of others and none of its own, and the last of these has
    -- another hash than the first of the two, then the rows of the one verify only if two different
    -- texts have the same hash.
    pub verify_audit_chain_from_db-Collision :
        (commands : List Command)
        → run codec commands [] ≡ mixed
        → a.hash ≢ b.hash
        → (verify_audit_chain_from_db codec (some id) mixed).ok ≡ true
        → Collision codec
    verify_audit_chain_from_db-Collision commands made differ v =
        let (prev, l) = run-Holds codec commands [] (audit_genesis_hash, tt) in
        same_next a.hash b.hash c differ (verified_next v)
          (logged prev (subst (IsLog codec prev) made l))
