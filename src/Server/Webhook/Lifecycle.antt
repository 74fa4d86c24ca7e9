-- ===== src/Server/Webhook/Lifecycle.antt =====
-- The `installation` events as a state machine: what the table of installations holds for one
-- installation, after any sequence of events.
use mathlib.Core.Option.{some-injective}
use review_agent.Common.{
  ℕ, ◌+◌, ◌≡◌, ◌≢◌, inl, inr, refl, sym, ap, ◌∙◌, ◌||◌, Option, none, some, or_default, Bool-cases,
  Text, text, text_eq, Result, Result-cases, ok, err, if◌then◌else◌,
}
use review_agent.Server.Webhook.Bodies.{EventBody, chain, installation, installation_id}
use review_agent.Server.Webhook.Deps.{
  InstallationRow, DbClient, WebhookHandlerDeps, Language, World, write, pure, ◌>>◌,
}
use review_agent.Server.Webhook.Shared.{WebhookResult}
use review_agent.Server.Webhook.Events.{
  store_row, installation_row, dispatch_installation, handle_installation_event,
}
use review_agent.Server.Webhook.Jobs.{chain-eq-some}
use review_agent.Server.Webhook.{handle_webhook}

-- what GitHub says of an installation, as far as this program keeps it
pub data Status : Type 0 where
  absent active : Status
  suspended : (at : ℕ) → Status

abbrev suspension : Option ℕ → Status
suspension none = active
suspension (some at) = suspended at

pub status_of : Option InstallationRow → Status
status_of none = absent
status_of (some r) = suspension r.suspended_at

pub data Lifecycle : Type 0 where
  install suspend remove : Lifecycle

-- the abstract machine: to suspend what is not there does nothing
pub next_status : Lifecycle → ℕ → Status → Status
next_status Lifecycle.install now st = active
next_status suspend now absent = absent
next_status suspend now _ = suspended now
next_status remove now st = absent

-- What the database promises of the table of installations: each write changes the row of its own
-- installation, and no other.
pub record IsTable {D : Type 0} (db : DbClient D) (row_of : D → ℕ → Option InstallationRow)
    : Type 0 where
  pub upsert_own :
      (d d' : D) (id : ℕ) (r : InstallationRow)
      → db.upsert_installation d id r ≡ ok d'
      → row_of d' id ≡ some r
  pub upsert_other :
      (d d' : D) (id k : ℕ) (r : InstallationRow)
      → db.upsert_installation d id r ≡ ok d'
      → k ≢ id
      → row_of d' k ≡ row_of d k
  pub suspend_own :
      (d d' : D) (id now : ℕ)
      → db.suspend_installation d id now ≡ ok d'
      → row_of d' id
        ≡ chain (row_of d id) (λ r. some (record r { suspended_at = some now; updated_at = now }))
  pub suspend_other :
      (d d' : D) (id k now : ℕ)
      → db.suspend_installation d id now ≡ ok d'
      → k ≢ id
      → row_of d' k ≡ row_of d k
  pub delete_own : (d d' : D) (id : ℕ) → db.delete_installation d id ≡ ok d' → row_of d' id ≡ none
  pub delete_other :
      (d d' : D) (id k : ℕ)
      → db.delete_installation d id ≡ ok d'
      → k ≢ id
      → row_of d' k ≡ row_of d k

abbrev pub if_complete : Option InstallationRow → Option Lifecycle
if_complete none = none
if_complete (some r) = some Lifecycle.install

-- what a payload asks for: an installation with all its fields, a suspension, a removal, or nothing
unfoldable pub lifecycle_of : Text → Option InstallationRow → Option Lifecycle
unfolding text_eq
lifecycle_of action r =
    if text_eq action (text "created") || text_eq action (text "unsuspend")
    then if_complete r
    else if text_eq action (text "suspend")
    then some suspend
    else if text_eq action (text "deleted")
    then some remove
    else none

abbrev pub move : Option Lifecycle → ℕ → Status → Status
move none now st = st
move (some l) now st = next_status l now st

installation_row-suspended_at :
    (b : EventBody) (now : ℕ) (r : InstallationRow)
    → installation_row b now ≡ some r
    → r.suspended_at ≡ none
unfolding installation_row
installation_row-suspended_at b now r e =
    let (i, p, e1) = chain-eq-some b.installation _ e in
    let (app, q, e2) = chain-eq-some i.app_id _ e1 in
    let (a, u, e3) = chain-eq-some i.account _ e2 in
    let (login, v, e4) = chain-eq-some a.login _ e3 in
    let (type, w, e5) = chain-eq-some a.type _ e4 in
    ap (λ x. x.suspended_at) (sym (some-injective _ _ e5))

status-suspend :
    (o : Option InstallationRow) (now : ℕ)
    → status_of (chain o (λ r. some (record r { suspended_at = some now; updated_at = now })))
      ≡ next_status suspend now (status_of o)
unfolding status_of next_status
status-suspend none now = refl
status-suspend (some r) now =
    elim r.suspended_at as (λ x. suspended now ≡ next_status suspend now (suspension x)) [
      | none ↦ refl
      | some at ↦ refl
    ]

module _ {D : Type 0} (db : DbClient D) (row_of : D → ℕ → Option InstallationRow)
    (table : IsTable db row_of) where
  -- the step of the abstract machine for one installation, and no step for the others
  pub record Follows (o : Option Lifecycle) (id now : ℕ) (d d' : D) : Type 0 where
    pub own : status_of (row_of d' id) ≡ move o now (status_of (row_of d id))
    pub others : (k : ℕ) → k ≢ id → status_of (row_of d' k) ≡ status_of (row_of d k)

  idle : (id now : ℕ) (d : D) → Follows none id now d d
  idle id now d = record { own = refl; others = λ k h. refl }

  -- A write that throws leaves everything as it was.
  abbrev pub Ends :
      Option Lifecycle → ℕ → ℕ → World D → Result Text WebhookResult × World D → Type 0
  Ends o id now s (ok r, t) = Follows o id now s.database t.database
  Ends o id now s (err e, t) = t.database ≡ s.database

  upserted :
      (action : Text) (id now : ℕ) (s : World D) (r : InstallationRow)
      → r.suspended_at ≡ none
      → Ends (some Lifecycle.install) id now s (store_row db action id (some r) s)
  unfolding status_of next_status
  upserted action id now s r active_row =
      elim (Result-cases (db.upsert_installation s.database id r)) [
        | inl (d, e) ↦ rw e (record {
          own = ap status_of (table.upsert_own s.database d id r e) ∙ ap suspension active_row;
          others = λ k h. ap status_of (table.upsert_other s.database d id k r e h);
        })
        | inr (x, e) ↦ rw e refl
      ]

  suspended_ends :
      (action : Text) (id now : ℕ) (s : World D)
      → Ends (some suspend) id now s (
          (do
            write (λ d. db.suspend_installation d id now)
            pure (WebhookResult.installation action id))
            s)
  unfolding status_of next_status
  suspended_ends action id now s = elim (Result-cases (db.suspend_installation s.database id now)) [
    | inl (d, e) ↦ rw e (record {
      own =
          ap status_of (table.suspend_own s.database d id now e)
          ∙ status-suspend (row_of s.database id) now;
      others = λ k h. ap status_of (table.suspend_other s.database d id k now e h);
    })
    | inr (x, e) ↦ rw e refl
  ]

  removed_ends :
      (action : Text) (id now : ℕ) (s : World D)
      → Ends (some remove) id now s (
          (do write (λ d. db.delete_installation d id); pure (WebhookResult.installation action id))
            s)
  unfolding status_of next_status
  removed_ends action id now s = elim (Result-cases (db.delete_installation s.database id)) [
    | inl (d, e) ↦ rw e (record {
      own = ap status_of (table.delete_own s.database d id e);
      others = λ k h. ap status_of (table.delete_other s.database d id k e h);
    })
    | inr (x, e) ↦ rw e refl
  ]

  stored_ends :
      (action : Text) (id now : ℕ) (b : EventBody) (s : World D) (o : Option InstallationRow)
      → installation_row b now ≡ o
      → Ends (if_complete o) id now s (store_row db action id o s)
  stored_ends action id now b s none h = idle id now s.database
  stored_ends action id now b s (some r) h =
      upserted action id now s r (installation_row-suspended_at b now r h)

  dispatched_ends :
      (action : Text) (id now : ℕ) (b : EventBody) (s : World D)
      → Ends
          (lifecycle_of action (installation_row b now))
          id
          now
          s
          (dispatch_installation db action id b now s)
  unfolding lifecycle_of dispatch_installation
  dispatched_ends action id now b s =
      elim (Bool-cases (text_eq action (text "created") || text_eq action (text "unsuspend"))) [
        | inl e ↦ rw e (stored_ends action id now b s (installation_row b now) refl)
        | inr e ↦ rw e (elim (Bool-cases (text_eq action (text "suspend"))) [
          | inl f ↦ rw f (suspended_ends action id now s)
          | inr f ↦ rw f (elim (Bool-cases (text_eq action (text "deleted"))) [
            | inl g ↦ rw g (removed_ends action id now s)
            | inr g ↦ rw g (idle id now s.database)
          ])
        ])
      ]

  -- An `installation` event of an installation moves its status as the abstract machine does, and no
  -- other installation's: created and unsuspended with all fields means active, suspended means
  -- suspended at the time of the event if it was there, deleted means absent, and any other event
  -- changes no status. If the database throws, nothing has changed.
  pub handle_webhook-Ends :
      (lang : Language) (deps : WebhookHandlerDeps D) (b : EventBody) (s : World D) (id : ℕ)
      → deps.db ≡ some db
      → installation_id b ≡ some id
      → Ends
          (lifecycle_of
            (or_default b.action (text "unknown"))
            (installation_row b (deps.now s.ticks)))
          id
          (deps.now s.ticks)
          s
          (handle_webhook lang deps installation b s)
  unfolding handle_webhook handle_installation_event
  handle_webhook-Ends lang deps b s id wired named = rw wired (
      rw named (
        dispatched_ends (or_default b.action (text "unknown")) id (deps.now s.ticks) b
          (record s { ticks = s.ticks + 1 })))
