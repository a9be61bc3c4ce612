-- ===== src/Accounts/Sends.antt =====
-- core/routing/message-router.service.ts: which account a message goes out by, and what is announced.
use messaging_gateway.Prelude.{
  ℕ, String, Option, none, some, Bool, true, false, not, ◌&&◌, if◌then◌else◌, ◌≡◌, ◌↔◌, arith, find,
  find-true, find-none, any, Option-cases, inl, inr, ◌⊎◌,
}
use messaging_gateway.Messages.{UnifiedEnvelope}
use messaging_gateway.Accounts.{
  ChannelAccount, AccountStatus, active, is_active, RoutingCriteria, matches_routing_criteria,
  or_else,
}
use messaging_gateway.Accounts.Repository.{Repository, find_by_routing_rules}
use messaging_gateway.Accounts.Routing.{
  MessageResult, SendCommand, outbound_envelope, account_not_found, account_unavailable, answered,
  is_failed, choose_account, deliver, send,
}

is_active_iff : (s : AccountStatus) → (is_active s ≡ true) ↔ (s ≡ active)
is_active_iff s = ground arith

-- The routing rules pick an account that is active and meets every criterion, and pick none only
-- where there is no such account.
pub find_by_routing_rules_lem :
    (r : Repository) (criteria : RoutingCriteria)
    → ((a : ChannelAccount) × (find_by_routing_rules r criteria ≡ some a)
        × (a.status ≡ active)
        × (matches_routing_criteria a criteria ≡ true))
      ⊎ ((find_by_routing_rules r criteria ≡ none)
          × (any (λ a. is_active a.status && matches_routing_criteria a criteria) r.accounts
              ≡ false))
unfolding find_by_routing_rules
find_by_routing_rules_lem r criteria =
    let fits = λ (a : ChannelAccount). is_active a.status && matches_routing_criteria a criteria in
    elim (Option-cases (find fits r.accounts)) [
      | inl e ↦ inr (e, find-none fits r.accounts e)
      | inr (a, e) ↦
          let t = find-true fits r.accounts e in
          inl (a, e, ground (arith, t, is_active_iff a.status), ground (arith, t))
    ]

-- How a message was sent: by an account that is active, whose adapter took it, and announced
-- exactly where there is an event bus and the answer is not a failure.
pub record Sent (adapter : ChannelAccount → SendCommand → Option MessageResult) (bus : Bool)
    (id : String) (now : ℕ) (r : Repository) (command : SendCommand) (result : MessageResult)
    (event : Option UnifiedEnvelope) : Type 0 where
  pub account : ChannelAccount
  pub full : MessageResult
  pub chosen : choose_account r command ≡ some account
  pub is_on : account.status ≡ active
  pub taken : adapter account command ≡ some full
  pub stripped : result ≡ record full { provider_raw = none }
  pub announced : event ≡ (
      if bus && not (is_failed full.status)
      then some (outbound_envelope id now account command full)
      else none)

module _ (adapter : ChannelAccount → SendCommand → Option MessageResult) (bus : Bool) (id : String)
    (now : ℕ) where
  -- The router answers with a result exactly when the account chosen is active and its adapter
  -- took the message; the answer leaves out the provider's raw payload, and the message is
  -- announced exactly where there is an event bus and the result is not a failure.
  pub send-Sent :
      (r : Repository) (command : SendCommand) (result : MessageResult)
      (event : Option UnifiedEnvelope)
      → (send adapter bus id now r command ≡ answered result event)
        ↔ Sent adapter bus id now r command result event
  unfolding send deliver
  send-Sent r command result event = (
    λ h. elim (Option-cases (choose_account r command)) [
      | inl missing ↦ absurd (ground (arith, missing))
      | inr (a, found) ↦ elim (Option-cases (adapter a command)) [
        | inl threw ↦ absurd (ground (arith, found, threw))
        | inr (full, took) ↦ record {
          account = a;
          full = full;
          chosen = found;
          is_on = ground (arith, found, is_active_iff a.status);
          taken = took;
          stripped = ground (arith, found, took);
          announced = ground (arith, found, took);
        }
      ]
    ],
    λ s. ground (
      arith,
      s.chosen,
      s.taken,
      (is_active_iff s.account.status).1 s.is_on,
      s.stripped,
      s.announced,
    ),
  )

  -- A message whose account is not active never reaches an adapter: it is refused as unavailable,
  -- and as unknown where no account is chosen.
  pub send_refused :
      (r : Repository) (command : SendCommand)
      → ((choose_account r command ≡ none)
          × (send adapter bus id now r command
              ≡ account_not_found (or_else command.from_account_id "routing")))
        ⊎ ((a : ChannelAccount) × (choose_account r command ≡ some a)
            × ((a.status ≡ active)
                ⊎ (send adapter bus id now r command ≡ account_unavailable a.id)))
  unfolding send
  send_refused r command = elim (Option-cases (choose_account r command)) [
    | inl missing ↦ inl (missing, rw (missing, send))
    | inr (a, found) ↦ inr (a, found, ground (arith, found, is_active_iff a.status))
  ]
