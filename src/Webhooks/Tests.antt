-- ===== src/Webhooks/Tests.antt =====
-- The webhook store at concrete commands.
use messaging_gateway.Prelude.{String, none, some, true, false, List, [], ◌∷◌, ◌≡◌, refl, length}
use messaging_gateway.Webhooks.{
  WebhookInput, WebhookStore, find_by_id, Command, adds, updates, removes_account, perform,
  perform_all,
}
use messaging_gateway.Webhooks.Apart.{UniqueIds}
use messaging_gateway.Webhooks.Lookups.{after_all, perform_all-after_all}

abbrev no_webhooks : WebhookStore String
no_webhooks = record { configs = []; file = [] }

abbrev nothing_given : WebhookInput String
nothing_given = record { url = none; secret = none; events = none; filters = none; enabled = none }

abbrev switched_off : WebhookInput String
switched_off = record {
  url = none;
  secret = none;
  events = some [];
  filters = none;
  enabled = some false;
}

abbrev commands : List (Command String)
commands =
    adds "wh_1" "shop" "https://a" nothing_given 1 true
    ∷ adds "wh_2" "desk" "https://b" nothing_given 2 true
    ∷ updates "wh_1" switched_off 3 true
    ∷ removes_account "desk" true
    ∷ []

perform_all-after_all_example :
    (find_by_id "wh_1" (perform_all no_webhooks commands)
      ≡ after_all commands (λ y. find_by_id y no_webhooks) "wh_1")
    × UniqueIds (perform_all no_webhooks commands).configs
unfolding perform
perform_all-after_all_example =
    perform_all-after_all no_webhooks commands "wh_1" tt (refl, (refl, (refl, (refl, tt))))

-- The file of a webhook whose write failed does not hold it, and memory does.
unwritten :
    (perform_all no_webhooks (adds "wh_1" "shop" "https://a" nothing_given 1 false ∷ [])).file ≡ []
unfolding perform_all
unwritten = refl

in_memory_all_the_same :
    length
      (perform_all no_webhooks (adds "wh_1" "shop" "https://a" nothing_given 1 false ∷ [])).configs
    ≡ 1
unfolding perform_all
in_memory_all_the_same = refl
