-- ===== src/Accounts/Suspended.antt =====
-- core/accounts/account-status.subscriber.ts and apply-health-result.ts: what the gateway observes
-- of an account never overrides the operator who suspended it.
use messaging_gateway.Prelude.{
  String, Option, some, Bool, true, List, [], ◌∷◌, ◌≡◌, arith, find, find-true, Option-cases,
  Bool-cases, inl, inr,
}
use messaging_gateway.Accounts.{
  ChannelAccount, suspended, AccountIdentity, Partial, with_changes, ConnectionEvent,
  on_connection_update, ValidationResult, apply_health_result,
}
use messaging_gateway.Accounts.Repository.{
  Repository, has_id, find_by_id, replace, observed, observe,
}

-- A change that leaves a suspended account suspended.
abbrev pub Respects : (ChannelAccount → Option Partial) → Type 0
Respects change =
    (a : ChannelAccount) (p : Partial)
    → a.status ≡ suspended
    → change a ≡ some p
    → (with_changes a p).status ≡ suspended

on_connection_update-Respects : (e : ConnectionEvent) → Respects (on_connection_update e)
unfolding on_connection_update with_changes
on_connection_update-Respects e a p s h = ground arith

apply_health_result-Respects :
    (merge : AccountIdentity → AccountIdentity → AccountIdentity) (r : ValidationResult)
    → Respects (apply_health_result merge r)
unfolding apply_health_result with_changes
apply_health_result-Respects merge r a p s h = ground arith

find-replace :
    (id : String) (new a : ChannelAccount) (accounts : List ChannelAccount)
    → has_id id new ≡ true
    → find (has_id id) accounts ≡ some a
    → find (has_id id) (replace id new accounts) ≡ some new
unfolding replace
find-replace id new a [] n h = cc
find-replace id new a (b ∷ bs) n h = elim (Bool-cases (has_id id b)) [
  | inl here ↦ rw (here, replace) (rw n)
  | inr there ↦ rw (there, replace) (rw there (find-replace id new a bs n (ground arith)))
]

observed-accounts :
    (r : Repository) (wrote : Bool) (accounts : List ChannelAccount)
    → (observed r wrote accounts).accounts ≡ accounts
unfolding observed
observed-accounts r wrote accounts = ground arith

with_changes-id :
    (id : String) (a : ChannelAccount) (p : Partial)
    → has_id id a ≡ true
    → has_id id (with_changes a p) ≡ true
unfolding with_changes
with_changes-id id a p h = h

observe-change :
    (change : ChannelAccount → Option Partial) (r : Repository) (wrote : Bool) (id : String)
    (a : ChannelAccount) (p : Partial)
    → find (has_id id) r.accounts ≡ some a
    → change a ≡ some p
    → (observe r wrote id change).0 ≡ observed r wrote (replace id (with_changes a p) r.accounts)
unfolding observe
observe-change change r wrote id a p found e = ground (arith, found, e)

observe-Respects :
    (change : ChannelAccount → Option Partial)
    → Respects change
    → (r : Repository) (wrote : Bool) (id : String) (a : ChannelAccount) → find_by_id r id ≡ some a
    → a.status ≡ suspended
    → (b : ChannelAccount) × (find_by_id (observe r wrote id change).0 id ≡ some b)
      × (b.status ≡ suspended)
unfolding find_by_id observe
observe-Respects change keeps r wrote id a found s = elim (Option-cases (change a)) [
  | inl nothing ↦ (a, ground (arith, found, nothing), s)
  | inr (p, e) ↦
      let kept = with_changes-id id a p (find-true (has_id id) r.accounts found) in
      (
        with_changes a p,
        rw
            (
              observe-change change r wrote id a p found e,
              observed-accounts r wrote (replace id (with_changes a p) r.accounts),
            )
            (find-replace id (with_changes a p) a r.accounts kept found),
        keeps a p s e,
      )
]

-- Whatever the gateway sees of a suspended account, a connection that opens or is lost or any
-- result of a health check, and whether or not its file can be written, the account stays
-- suspended.
pub observe_suspended :
    (r : Repository) (wrote : Bool) (id : String) (a : ChannelAccount) (event : ConnectionEvent)
    (merge : AccountIdentity → AccountIdentity → AccountIdentity) (result : ValidationResult)
    → find_by_id r id ≡ some a
    → a.status ≡ suspended
    → ((b : ChannelAccount) × (find_by_id (observe r wrote id (on_connection_update event)).0 id
          ≡ some b)
        × (b.status ≡ suspended))
      × ((b : ChannelAccount) × (find_by_id
              (observe r wrote id (apply_health_result merge result)).0
              id
            ≡ some b)
          × (b.status ≡ suspended))
observe_suspended r wrote id a event merge result found s = (
  observe-Respects (on_connection_update event) (on_connection_update-Respects event) r wrote id a
      found s,
  observe-Respects (apply_health_result merge result) (apply_health_result-Respects merge result) r
      wrote id a found s,
)
