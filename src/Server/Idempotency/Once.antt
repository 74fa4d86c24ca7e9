-- ===== src/Server/Idempotency/Once.antt =====
-- What a delivery that was recorded comes to when it is sent again.
use review_agent.Common.{
  ◌≡◌, ◌≢◌, refl, Bool, true, false, not, ◌||◌, Option, none, some, List, [], ◌∷◌, Text, text_eq,
  text_eq_refl, Result, ok, err, arith,
}
use review_agent.Server.Idempotency.{passed, failed, answered, idempotency}

-- What the table promises: an insert says whether the id was new, and then the id is there.
pub record IsTable {D : Type 0} (insert : D → Text → Result Text (Bool × D))
    (seen : D → Text → Bool) : Type 0 where
  pub fresh : (d d' : D) (id : Text) (b : Bool) → insert d id ≡ ok (b, d') → b ≡ not (seen d id)
  pub kept :
      (d d' : D) (id k : Text) (b : Bool)
      → insert d id ≡ ok (b, d')
      → seen d' k ≡ (text_eq id k || seen d k)

not_new : {b : Bool} → true ≡ not b → b ≢ true
not_new {b} h = ground arith

module _ {D : Type 0} (insert : D → Text → Result Text (Bool × D)) (seen : D → Text → Bool)
    (table : IsTable insert seen) where
  kept_true :
      (id k : Text) (d d' : D) (b : Bool)
      → insert d id ≡ ok (b, d')
      → seen d k ≡ true
      → seen d' k ≡ true
  kept_true id k d d' b p h = ground (arith, table.kept d d' id k b p)

  kept_own : (id : Text) (d d' : D) (b : Bool) → insert d id ≡ ok (b, d') → seen d' id ≡ true
  kept_own id d d' b p = ground (arith, table.kept d d' id id b p, text_eq_refl id)

module _ {D S : Type 0} (insert : D → Text → Result Text (Bool × D)) (seen : D → Text → Bool)
    (table : IsTable insert seen) where
  -- deliveries, each with what comes next for it
  abbrev pub deliver_all : List (Option Text × (S → S)) → D × S → D × S
  deliver_all [] t = t
  deliver_all ((id, next) ∷ ds) t =
      let (r, d, s) = idempotency insert next id t in deliver_all ds (d, s)

  answered-seen :
      (next : S → S) (id k : Text) (d : D) (s : S) (r : Result Text (Bool × D))
      → insert d id ≡ r
      → seen d k ≡ true
      → seen (answered insert next r (d, s)).1 k ≡ true
  answered-seen next id k d s (err e) p h = h
  answered-seen next id k d s (ok (false, d')) p h = kept_true insert seen table id k d d' false p h
  answered-seen next id k d s (ok (true, d')) p h = kept_true insert seen table id k d d' true p h

  idempotency-seen :
      (next : S → S) (o : Option Text) (k : Text) (d : D) (s : S)
      → seen d k ≡ true
      → seen (idempotency insert next o (d, s)).1 k ≡ true
  unfolding idempotency
  idempotency-seen next none k d s h = h
  idempotency-seen next (some []) k d s h = h
  idempotency-seen next (some (c ∷ id)) k d s h = answered-seen next (c ∷ id) k d s _ refl h

  deliver_all-seen :
      (ds : List (Option Text × (S → S))) (k : Text) (d : D) (s : S)
      → seen d k ≡ true
      → seen (deliver_all ds (d, s)).0 k ≡ true
  deliver_all-seen [] k d s h = h
  deliver_all-seen ((id, next) ∷ ds) k d s h =
      let (r, d', s') = idempotency insert next id (d, s) in
      deliver_all-seen ds k d' s' (idempotency-seen next id k d s h)

  -- an id that is there is not handled
  answered-known :
      (next : S → S) (id : Text) (d : D) (s : S) (r : Result Text (Bool × D))
      → insert d id ≡ r
      → seen d id ≡ true
      → ((answered insert next r (d, s)).0 ≢ passed) × ((answered insert next r (d, s)).2 ≡ s)
  answered-known next id d s (err e) p h = (λ q. cc q, refl)
  answered-known next id d s (ok (false, d')) p h = (λ q. cc q, refl)
  answered-known next id d s (ok (true, d')) p h = absurd (not_new (table.fresh d d' id true p) h)

  first-seen :
      (next : S → S) (id : Text) (d : D) (s : S) (r : Result Text (Bool × D))
      → insert d id ≡ r
      → ((e : Text) → (answered insert next r (d, s)).0 ≢ failed e)
      → seen (answered insert next r (d, s)).1 id ≡ true
  first-seen next id d s (err e) p h = absurd (h e refl)
  first-seen next id d s (ok (false, d')) p h = kept_own insert seen table id d d' false p
  first-seen next id d s (ok (true, d')) p h = kept_own insert seen table id d d' true p

  -- A delivery that was answered without a failure of the table is handled no more: after any other
  -- deliveries, whatever they do, the same delivery id changes nothing and is not passed on.
  pub idempotency-once :
      (id : Text) (d : D) (s : S) (next : S → S)
      → id ≢ []
      → ((e : Text) → (idempotency insert next (some id) (d, s)).0 ≢ failed e)
      → (ds : List (Option Text × (S → S))) (again : S → S)
      → let t = deliver_all ds (
        (idempotency insert next (some id) (d, s)).1,
        (idempotency insert next (some id) (d, s)).2,
      ) in
        ((idempotency insert again (some id) t).0 ≢ passed)
        × ((idempotency insert again (some id) t).2 ≡ t.1)
  unfolding idempotency
  idempotency-once [] d s next n h ds again = absurd (n refl)
  idempotency-once (c ∷ id) d s next n h ds again =
      let first = answered insert next (insert d (c ∷ id)) (d, s) in
      let t = deliver_all ds (first.1, first.2) in
      let there =
        deliver_all-seen ds (c ∷ id) first.1 first.2 (first-seen next (c ∷ id) d s _ refl h) in
      answered-known again (c ∷ id) t.0 t.1 _ refl there
