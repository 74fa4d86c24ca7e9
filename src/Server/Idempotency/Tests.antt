-- ===== src/Server/Idempotency/Tests.antt =====
-- One delivery that is sent twice, with another in between; the table is the set of the ids.
use review_agent.Common.{
  ◌≡◌, ◌≢◌, refl, sym, ap, Bool, false, not, ◌||◌, some, List, [], ◌∷◌, ◌++◌, Text, text, text_eq,
  Result, ok, ok-injective,
}
use review_agent.Server.Idempotency.{passed, idempotency}
use review_agent.Server.Idempotency.Once.{IsTable, deliver_all, idempotency-once}

abbrev insert : (Text → Bool) → Text → Result Text (Bool × (Text → Bool))
insert d id = ok (not (d id), λ k. text_eq id k || d k)

abbrev seen : (Text → Bool) → Text → Bool
seen d k = d k

insert-IsTable : IsTable insert seen
insert-IsTable = record {
  fresh = λ d d' id b e. sym (ap (λ x. x.0) (ok-injective e));
  kept = λ d d' id k b e. sym (ap (λ x. x.1 k) (ok-injective e));
}

abbrev log : Text → List Text → List Text
log id s = s ++ (id ∷ [])

abbrev empty : Text → Bool
empty k = false

abbrev between : (Text → Bool) × List Text
between = deliver_all insert seen insert-IsTable ((some (text "b"), log (text "b")) ∷ []) (
  (idempotency insert (log (text "a")) (some (text "a")) (empty, [])).1,
  (idempotency insert (log (text "a")) (some (text "a")) (empty, [])).2,
)

idempotency-once_example :
    ((idempotency insert (log (text "a")) (some (text "a")) between).0 ≢ passed)
    × ((idempotency insert (log (text "a")) (some (text "a")) between).2 ≡ between.1)
unfolding idempotency
idempotency-once_example =
    idempotency-once insert seen insert-IsTable (text "a") empty [] (log (text "a")) (λ e. cc e)
      (λ e p. cc p) ((some (text "b"), log (text "b")) ∷ []) (log (text "a"))

both_handled : between.1 ≡ text "a" ∷ text "b" ∷ []
unfolding idempotency text_eq
both_handled = refl
