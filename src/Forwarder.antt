-- ===== src/Forwarder.antt =====
-- connections/webhooks/webhook-forwarder.ts: the queue of each destination, which its worker empties one
-- delivery at a time, and the choice of the webhooks that get an event. An event of the model is a call
-- of `enqueue` or the end of the worker's `post`, so any run is an order that the program may take.
pub mod Queues
mod Tests
use messaging_gateway.Prelude.{
  ℕ, String, Option, none, some, Bool, true, false, not, ◌&&◌, ◌||◌, List, [], ◌∷◌, ◌++◌,
  if◌then◌else◌, str_eq, str_mem, leb, length, filter, truthy?, map,
}

-- A delivery, without the headers and the body that the worker posts.
pub record Delivery : Type 0 where
  pub url : String
  pub account_id : String
  pub event_type : String
  pub body : String

abbrev pub webhook_queue_capacity : ℕ
webhook_queue_capacity = 1000

-- A destination: what its worker is posting, and what waits. One that the map does not hold is idle.
pub data Destination : Type 0 where
  idle : Destination
  posting : Delivery → List Delivery → Destination

-- What the forwarder has done with the deliveries of one destination, each in order.
pub record Queue : Type 0 where
  pub destination : Destination
  pub posted : List (Delivery × Bool)
  pub dropped : List Delivery

abbrev pub new_queue : Queue
new_queue = record { destination = idle; posted = []; dropped = [] }

-- `pending.shift()` and then `push`, on a queue that is full.
abbrev pub drop_oldest : Queue → Delivery → List Delivery → Delivery → Queue
drop_oldest q now [] d = record q { destination = posting now (d ∷ []) }
drop_oldest q now (oldest ∷ rest) d = record {
  destination = posting now (rest ++ d ∷ []);
  posted = q.posted;
  dropped = q.dropped ++ oldest ∷ [];
}

abbrev pub add : Queue → Destination → Delivery → Queue
add q idle d = record q { destination = posting d [] }
add q (posting now pending) d =
    if leb webhook_queue_capacity (length pending)
    then drop_oldest q now pending d
    else record q { destination = posting now (pending ++ d ∷ []) }

unfoldable pub enqueue : Queue → Delivery → Queue
enqueue q d = add q q.destination d

abbrev pub next_of : List Delivery → Destination
next_of [] = idle
next_of (d ∷ pending) = posting d pending

abbrev pub settle : Queue → Destination → Bool → Queue
settle q idle delivered = q
settle q (posting now pending) delivered = record q {
  destination = next_of pending;
  posted = q.posted ++ (now, delivered) ∷ [];
}

-- One turn of the loop of `deliverAll`: the post has ended, and the next one starts.
unfoldable pub end_post : Queue → Bool → Queue
end_post q delivered = settle q q.destination delivered

pub data Event : Type 0 where
  enqueued : Delivery → Event
  post_ended : Bool → Event

unfoldable pub step : Queue → Event → Queue
unfolding enqueue end_post
step q (enqueued d) = enqueue q d
step q (post_ended delivered) = end_post q delivered

unfoldable pub run : Queue → List Event → Queue
unfolding step
run q [] = q
run q (e ∷ es) = run (step q e) es

-- A webhook's configuration; its envelope filter is the test that it makes of a payload.
pub record WebhookConfig (V : Type 0) : Type 0 where
  pub url : String
  pub secret : Option String
  pub events : List String
  pub filters : Option (V → Bool)
  pub enabled : Bool

abbrev pub filtered_event : String → Bool
filtered_event event_type = str_eq event_type "message.inbound" || str_eq event_type "message.sent"

module _ {V : Type 0} where
  unfoldable pub wants : V → String → WebhookConfig V → Bool
  wants payload event_type c =
      if not c.enabled
      then false
      else if not (str_mem "*" c.events) && not (str_mem event_type c.events)
      then false
      else elim c.filters [
        | none ↦ true
        | some matches ↦ if filtered_event event_type then matches payload else true
      ]

  abbrev targets :
      List (WebhookConfig V) → Option String → Option String → List (String × Option String)
  targets [] (some url) secret = if truthy? (some url) then (url, secret) ∷ [] else []
  targets [] none secret = []
  targets (c ∷ matching) url secret = map (λ x. (x.url, x.secret)) (c ∷ matching)

  -- `forwardRaw`: the destinations that get the event, each with the secret that signs it.
  unfoldable pub forward_raw :
      List (WebhookConfig V)
      → Option String
      → Option String
      → V
      → String
      → List (String × Option String)
  unfolding wants
  forward_raw configs global_url global_secret payload event_type =
      targets (filter (wants payload event_type) configs) global_url global_secret
