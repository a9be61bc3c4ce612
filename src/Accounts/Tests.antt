-- ===== src/Accounts/Tests.antt =====
-- Accounts, routing and the repository at concrete accounts.

use messaging_gateway.Prelude.{
  String, Option, none, some, Bool, true, false, List, [], ◌∷◌, ◌≡◌, refl, ◌↔◌,
}
use messaging_gateway.Samples.{account_of, suspended_account}
use messaging_gateway.Accounts.{
  ChannelAccount, suspended, active, connected, RoutingCriteria, matches_routing_criteria,
  is_active, no_change, or_else, apply_health_result, on_connection_update,
}
use messaging_gateway.Accounts.Repository.{
  Repository, to_yaml, find_by_routing_rules, find_by_id, observe, has_id,
}
use messaging_gateway.Accounts.Routing.{SendCommand, as_text, MessageResult, sent, send, answered}
use messaging_gateway.Accounts.Sends.{send-Sent, Sent}
use messaging_gateway.Accounts.Suspended.{observe_suspended}
use messaging_gateway.Accounts.Durable.{Command, to_save, to_remove, to_observe, perform}

abbrev two : Repository
two = record {
  accounts = suspended_account "old" ∷ account_of "shop" ∷ [];
  file = some (to_yaml (suspended_account "old") ∷ to_yaml (account_of "shop") ∷ []);
}

abbrev criteria : RoutingCriteria
criteria = record { channel = some "whatsapp"; owner = some "ops"; tags = [] }

abbrev command : Option String → SendCommand
command id = record {
  from_account_id = id;
  routing = some criteria;
  to = "34600111222";
  content = record {
    kind = as_text;
    body = some "hello";
    media_url = none;
    mime_type = none;
    file_name = none;
    caption = none;
    latitude = none;
    longitude = none;
  };
}

abbrev result : Option String → MessageResult
result raw = record {
  message_id = "m1";
  status = sent;
  timestamp = 9;
  provider_message_id = none;
  remote_jid = none;
  provider_raw = raw;
}

abbrev adapter : ChannelAccount → SendCommand → Option MessageResult
adapter account c = some (result (some "{}"))

active_one : find_by_routing_rules two criteria ≡ some (account_of "shop")
unfolding find_by_routing_rules matches_routing_criteria
active_one = refl

send-Sent_example :
    (send adapter false "e1" 9 two (command none) ≡ answered (result none) none)
    ↔ Sent adapter false "e1" 9 two (command none) (result none) none
send-Sent_example = send-Sent adapter false "e1" 9 two (command none) (result none) none

found_old : find_by_id two "old" ≡ some (suspended_account "old")
unfolding find_by_id
found_old = refl

observe_suspended_example :
    ((b : ChannelAccount) × (find_by_id
          (observe two true "old" (on_connection_update connected)).0
          "old"
        ≡ some b)
      × (b.status ≡ suspended))
    × ((b : ChannelAccount) × (find_by_id
            (observe two true "old" (
              apply_health_result
                (λ i j. j)
                (record { status = active; discovered_identity = none }))).0
            "old"
          ≡ some b)
        × (b.status ≡ suspended))
observe_suspended_example =
    observe_suspended two true "old" (suspended_account "old") connected (λ i j. j)
      (record { status = active; discovered_identity = none }) found_old refl

abbrev commands : List (Bool × Command)
commands =
    (true, to_save (account_of "bar"))
    ∷ (false, to_remove "old")
    ∷ (false, to_observe "shop" (λ a. some (record no_change { status = some suspended })))
    ∷ (true, to_save (account_of "bar"))
    ∷ []

not_written : (perform two false (to_remove "old")).1 ≡ true
unfolding perform messaging_gateway.Accounts.Repository.remove
    messaging_gateway.Accounts.Repository.commit
not_written = refl
