-- ===== src/Forwarder/Tests.antt =====
-- The queue of a destination in a concrete run.

use messaging_gateway.Prelude.{
  String, none, some, Bool, true, false, List, [], ◌∷◌, ◌≡◌, refl, str_eq,
}
use messaging_gateway.Forwarder.{
  Delivery, Event, enqueued, post_ended, run, new_queue, forward_raw, WebhookConfig,
}
use messaging_gateway.Forwarder.Queues.{Bounded, run-Bounded, accounted, count, sent, accounted-run}

abbrev delivery : String → Delivery
delivery body = record {
  url = "https://crm.example/hook";
  account_id = "shop";
  event_type = "message.inbound";
  body = body;
}

abbrev events : List Event
events =
    enqueued (delivery "a")
    ∷ enqueued (delivery "b")
    ∷ post_ended true
    ∷ enqueued (delivery "c")
    ∷ post_ended false
    ∷ []

abbrev is_b : Delivery → Bool
is_b d = str_eq d.body "b"

b_failed : (run new_queue events).posted ≡ (delivery "a", true) ∷ (delivery "b", false) ∷ []
unfolding run
b_failed = refl

run-Bounded_example : Bounded (run new_queue events)
run-Bounded_example = run-Bounded events

accounted-run_example : accounted is_b (run new_queue events) ≡ count is_b (sent events)
accounted-run_example = accounted-run is_b events

abbrev hook : WebhookConfig String
hook = record {
  url = "https://crm.example/hook";
  secret = none;
  events = "message.inbound" ∷ [];
  filters = some (λ payload. str_eq payload "wanted");
  enabled = true;
}

filtered_goes_global :
    forward_raw (hook ∷ []) (some "https://all.example") (some "k") "other" "message.inbound"
    ≡ ("https://all.example", some "k") ∷ []
unfolding forward_raw
filtered_goes_global = refl
