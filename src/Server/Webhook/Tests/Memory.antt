-- ===== src/Server/Webhook/Tests/Memory.antt =====
-- Two tables in memory, as a database that keeps the promises the theorems ask for.
use mathlib.Core.Path.{subst}
use review_agent.Common.{
  ℕ, ◌≡◌, ◌≢◌, refl, ap, Bool, true, false, ◌&&◌, Option, none, some, Text, text_eq, text_eq_refl,
  Result, ok, ok-injective, ==_iff, ◌==◌, arith, if◌then◌else◌,
}
use review_agent.Server.Webhook.Bodies.{chain}
use review_agent.Server.Webhook.Deps.{ReviewStateRow, InstallationRow, DbClient}
use review_agent.Server.Webhook.Pausing.{IsStore}
use review_agent.Server.Webhook.Lifecycle.{IsTable}

pub record Tables : Type 0 where
  pub states : ℕ → Text → Option ReviewStateRow
  pub installations : ℕ → Option InstallationRow

abbrev flagged : Bool → ℕ → Option ReviewStateRow → Option ReviewStateRow
flagged paused now row = chain row (λ r. some (record { updated_at = now; paused = paused }))

abbrev pub set_flag : Tables → ℕ → Text → Bool → ℕ → Tables
set_flag d id pr_id paused now = record d {
  states = λ i p.
      if (i == id) && text_eq p pr_id then flagged paused now (d.states i p) else d.states i p;
}

abbrev set_row : Tables → ℕ → Option InstallationRow → Tables
set_row d id r = record d { installations = λ i. if i == id then r else d.installations i }

abbrev pub client : DbClient Tables
client = record {
  select_review_state = λ d id pr_id. ok (d.states id pr_id);
  update_review_state = λ d id pr_id paused now. ok (set_flag d id pr_id paused now);
  upsert_installation = λ d id r. ok (set_row d id (some r));
  suspend_installation = λ d id now. ok (
      set_row d id (
        chain (d.installations id)
          (λ r. some (record r { suspended_at = some now; updated_at = now }))));
  delete_installation = λ d id. ok (set_row d id none);
}

eq_refl : (n : ℕ) → (n == n) ≡ true
eq_refl n = ground arith

eq_false : {k n : ℕ} → k ≢ n → (k == n) ≡ false
eq_false {k} {n} h = ground (arith, ==_iff k n)

pub client-IsStore : IsStore client
client-IsStore = record {
  select-update = λ d d' id pr_id row paused now found stored.
      subst
        (λ x.
          ◌≡◌ {A = Result Text (Option ReviewStateRow)} (ok (x.states id pr_id))
            (ok (some (record { updated_at = now; paused = paused }))))
        (ok-injective stored)
        (rw (eq_refl id)
          (rw (text_eq_refl pr_id) (ap (λ r. ok (flagged paused now r)) (ok-injective found))));
}

abbrev pub row_of : Tables → ℕ → Option InstallationRow
row_of d id = d.installations id

own :
    (d d' : Tables) (id : ℕ) (r : Option InstallationRow)
    → ◌≡◌ {A = Result Text Tables} (ok (set_row d id r)) (ok d')
    → d'.installations id ≡ r
own d d' id r e = subst (λ x. x.installations id ≡ r) (ok-injective e) (rw (eq_refl id) refl)

other :
    (d d' : Tables) (id k : ℕ) (r : Option InstallationRow)
    → ◌≡◌ {A = Result Text Tables} (ok (set_row d id r)) (ok d')
    → k ≢ id
    → d'.installations k ≡ d.installations k
other d d' id k r e h =
    subst (λ x. x.installations k ≡ d.installations k) (ok-injective e) (rw (eq_false h) refl)

pub client-IsTable : IsTable client row_of
client-IsTable = record {
  upsert_own = λ d d' id r e. own d d' id (some r) e;
  upsert_other = λ d d' id k r e h. other d d' id k (some r) e h;
  suspend_own = λ d d' id now e. own d d' id _ e;
  suspend_other = λ d d' id k now e h. other d d' id k _ e h;
  delete_own = λ d d' id e. own d d' id none e;
  delete_other = λ d d' id k e h. other d d' id k none e h;
}
