-- ===== src/Server/Idempotency.antt =====
-- packages/server/src/middleware/idempotency.ts. The table of deliveries is a parameter: an insert
-- that does nothing on a delivery id that is there, and says whether it inserted. What comes next is
-- a step on a state of its own.
pub mod Once
mod Tests
use review_agent.Common.{Bool, true, false, Option, none, some, [], ◌∷◌, Text, Result, ok, err}

pub data Response : Type 0 where
  missing_delivery_id deduped passed : Response
  failed : Text → Response

module _ {D S : Type 0} (insert : D → Text → Result Text (Bool × D)) (next : S → S) where
  abbrev pub answered : Result Text (Bool × D) → D × S → Response × D × S
  answered (err e) (d, s) = (failed e, d, s)
  answered (ok (false, d')) (d, s) = (deduped, d', s)
  answered (ok (true, d')) (d, s) = (passed, d', next s)

  -- an absent and an empty header are refused alike
  unfoldable pub idempotency : Option Text → D × S → Response × D × S
  idempotency none (d, s) = (missing_delivery_id, d, s)
  idempotency (some []) (d, s) = (missing_delivery_id, d, s)
  idempotency (some (c ∷ id)) (d, s) = answered (insert d (c ∷ id)) (d, s)
