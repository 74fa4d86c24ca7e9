-- ===== src/Runner/Effects.antt =====
-- What one review reads and changes: the cost state of packages/runner/src/middleware/cost-guard.ts,
-- the tool-call counter of agent.ts, and the calls of the outside, listed in order. A call either
-- returns or throws; what was written before a throw stays written.
use review_agent.Common.{◌≡◌, refl, ap, ℕ, Bool, List, [], ◌∷◌, ◌++◌, Text, Result, ok, err}
use review_agent.Core.Glob.{GlobError}
use review_agent.Core.Cost.{RecordPhaseInput}

pub record Issue : Type 0 where
  pub path : Text
  pub message : Text

pub data LeakPhase : Type 0 where
  diff output : LeakPhase

-- the errors that the review itself distinguishes; `other` is any other
pub data RunError : Type 0 where
  glob : GlobError → RunError
  secret_leak : LeakPhase → (count : ℕ) → (rule_ids : List Text) → (reason : Text) → RunError
  schema_validation : List Issue → RunError
  cost_exceeded : (cap running : ℕ) → RunError
  other : Text → RunError

pub data CostThreshold : Type 0 where
  fallback abort kill daily_cap : CostThreshold

pub record CostThresholdEvent : Type 0 where
  pub threshold : CostThreshold
  pub cumulative : ℕ
  pub cap : ℕ

-- `generated diff retry`: a call of the model with this diff in its payload, with the retry suffix or
-- not
pub data Effect : Type 0 where
  estimated totals_read fallback_hint : Effect
  generated : (diff : Text) → (retry : Bool) → Effect
  threshold_crossed : CostThresholdEvent → Effect
  recorded : RecordPhaseInput → Effect

pub record RunState : Type 0 where
  pub total_cost : ℕ
  pub tool_calls : ℕ
  pub log : List Effect

abbrev pub Run : Type 0 → Type 0
Run A = RunState → Result RunError A × RunState

abbrev pub continue : {A B : Type 0} → Result RunError A → (A → Run B) → Run B
continue (ok a) f s = f a s
continue (err e) f s = (err e, s)

infixl 5 ◌>>=◌ ◌>>◌
abbrev pub ◌>>=◌ : {A B : Type 0} → Run A → (A → Run B) → Run B
◌>>=◌ m f s = let (r, s') = m s in continue r f s'

abbrev pub ◌>>◌ : {B : Type 0} → Run (Unit {0}) → Run B → Run B
m >> k = m >>= λ _. k

abbrev pub pure : {A : Type 0} → A → Run A
pure a s = (ok a, s)

abbrev pub raise : {A : Type 0} → RunError → Run A
raise e s = (err e, s)

-- a call of the outside with the answer that it gives
abbrev pub call : {A : Type 0} → Effect → Result RunError A → Run A
call e r s = (r, record s { log = s.log ++ (e ∷ []) })

abbrev pub emit : Effect → Run (Unit {0})
emit e = call e (ok tt)

abbrev pub set_total : ℕ → Run (Unit {0})
set_total n s = (ok tt, record s { total_cost = n })

continue-eq-ok :
    {A B : Type 0} (r : Result RunError A) (f : A → Run B) (s : RunState) {b : B}
    → (continue r f s).0 ≡ ok b
    → (a : A) × (r ≡ ok a) × (continue r f s ≡ f a s)
continue-eq-ok (ok a) f s h = (a, refl, refl)
continue-eq-ok (err e) f s h = cc

-- A sequence that returns: its first part returned, and the rest went on from there.
pub >>=-eq-ok :
    {A B : Type 0} (m : Run A) (f : A → Run B) (s : RunState) {b : B}
    → ((m >>= f) s).0 ≡ ok b
    → (a : A) × ((m s).0 ≡ ok a) × ((m >>= f) s ≡ f a (m s).1)
>>=-eq-ok m f s h = continue-eq-ok (m s).0 f (m s).1 h

module _ {A B : Type 0} (m : Run A) (f : A → Run B) (s : RunState) where
  pub >>=-ok : (a : A) → (m s).0 ≡ ok a → (m >>= f) s ≡ f a (m s).1
  >>=-ok a p = ap (λ r. continue r f (m s).1) p

  pub >>=-err : (e : RunError) → (m s).0 ≡ err e → (m >>= f) s ≡ (err e, (m s).1)
  >>=-err e p = ap (λ r. continue r f (m s).1) p

-- A sequence that returns, and whose first part can only return `v` and leave the state as it is.
pub >>=-eq-ok-still :
    {A B : Type 0} (m : Run A) (f : A → Run B) (s : RunState) (v : A) {b : B}
    → ((a : A) → (m s).0 ≡ ok a → m s ≡ (ok v, s))
    → ((m >>= f) s).0 ≡ ok b
    → (f v s).0 ≡ ok b
>>=-eq-ok-still m f s v still h = let (a, p, q) = >>=-eq-ok m f s h in rw (still a p) at h
