-- ===== src/Broadcaster/Beats.antt =====
-- connections/ws/websocket-broadcaster.ts: the heartbeat, the timer and the gauge.
use messaging_gateway.Prelude.{
  ℕ, ◌+◌, ◌≤◌, String, Option, none, Bool, true, false, not, List, [], ◌∷◌, ◌++◌, ◌==◌, ◌≡◌, refl,
  arith, length, if-case, ap, length-append, length-filter-le, ◌∙◌,
}
use messaging_gateway.Auth.{AuthScope}
use messaging_gateway.Broadcaster.{
  Client, Hub, new_hub, keep, add_client, remove_client, on_message, on_pong, Request, change, beat,
  heartbeat, broadcast, wants,
}

-- The gauge counts the clients, and the heartbeat is set exactly while there are any.
pub record Counted (hub : Hub) : Type 0 where
  pub counts : hub.gauge ≡ length hub.clients
  pub timed : hub.timer ≡ not (length hub.clients == 0)

keep-Counted :
    (hub : Hub) (left : List Client)
    → length left ≤ length hub.clients
    → Counted hub
    → Counted (keep hub left)
keep-Counted hub left h c = record {
  counts = omega (arith, c.counts);
  timed = ground (arith, c.timed);
}

beat-length : (ping_fails : ℕ → Bool) (cs : List Client) → length (beat ping_fails cs) ≤ length cs
unfolding beat
beat-length ping_fails [] = omega arith
beat-length ping_fails (c ∷ cs) = ground (arith, beat-length ping_fails cs)

length-change :
    (socket : ℕ) (f : Client → Client) (cs : List Client) → length (change socket f cs) ≡ length cs
length-change socket f [] = refl
length-change socket f (c ∷ cs) = omega (arith, length-change socket f cs)

pub data Event : Type 0 where
  joins : ℕ → List String → AuthScope → Event
  leaves : ℕ → Event
  asks : ℕ → Request → Event
  pongs : ℕ → Event
  sends : (ℕ → Bool) → Option String → Event
  beats : (ℕ → Bool) → Event

abbrev pub happens : Hub → Event → Hub
happens hub (joins socket accounts scope) = add_client hub socket accounts scope
happens hub (leaves socket) = remove_client hub socket
happens hub (asks socket request) = on_message hub socket request
happens hub (pongs socket) = on_pong hub socket
happens hub (sends fails account) = (broadcast {P = Bool} fails hub account true none).0
happens hub (beats ping_fails) = heartbeat ping_fails hub

abbrev pub all_happen : Hub → List Event → Hub
all_happen hub [] = hub
all_happen hub (e ∷ es) = all_happen (happens hub e) es

joined-Counted :
    (hub : Hub) (new : Client)
    → Counted hub
    → Counted (record { clients = hub.clients ++ new ∷ []; timer = true; gauge = hub.gauge + 1 })
joined-Counted hub new c =
    let longer = length-append hub.clients (new ∷ []) in
    record { counts = omega (arith, c.counts, longer); timed = rw longer (ground arith) }

happens-Counted : (hub : Hub) (e : Event) → Counted hub → Counted (happens hub e)
unfolding add_client remove_client on_message on_pong broadcast heartbeat
happens-Counted hub (joins socket accounts scope) c = joined-Counted hub _ c
happens-Counted hub (leaves socket) c = keep-Counted hub _ (length-filter-le _ hub.clients) c
happens-Counted hub (asks socket request) c = record {
  counts = omega (
    arith,
    c.counts,
    length-change socket (messaging_gateway.Broadcaster.on_request request) hub.clients,
  );
  timed =
      rw (length-change socket (messaging_gateway.Broadcaster.on_request request) hub.clients)
        c.timed;
}
happens-Counted hub (pongs socket) c = record {
  counts =
      omega (arith, c.counts, length-change socket (λ x. record x { is_alive = true }) hub.clients);
  timed = rw (length-change socket (λ x. record x { is_alive = true }) hub.clients) c.timed;
}
happens-Counted hub (sends fails account) c = keep-Counted hub _ (length-filter-le _ hub.clients) c
happens-Counted hub (beats ping_fails) c = keep-Counted hub _ (beat-length ping_fails hub.clients) c

from-Counted : (hub : Hub) (es : List Event) → Counted hub → Counted (all_happen hub es)
from-Counted hub [] c = c
from-Counted hub (e ∷ es) c = from-Counted (happens hub e) es (happens-Counted hub e c)

-- Whatever clients join, leave, ask or fail, the gauge is the number of clients, and the heartbeat runs
-- exactly while there is a client.
pub all_happen-Counted : (es : List Event) → Counted (all_happen new_hub es)
all_happen-Counted es = from-Counted new_hub es (record { counts = refl; timed = refl })

beat_twice : (p q : ℕ → Bool) (cs : List Client) → beat q (beat p cs) ≡ []
unfolding beat
beat_twice p q [] = refl
beat_twice p q (c ∷ cs) =
    if-case (λ xs. beat q xs ≡ []) (not c.is_alive) (λ h. beat_twice p q cs)
      (λ h.
        if-case (λ xs. beat q xs ≡ []) (p c.socket) (λ k. beat_twice p q cs)
          (λ k. beat_twice p q cs))

-- Two heartbeats with no answer between them terminate every client, which also stops the
-- heartbeat, of a hub whose gauge counts its clients and whose heartbeat runs exactly while there
-- are any.
pub heartbeat_twice :
    (p q : ℕ → Bool) (hub : Hub)
    → Counted hub
    → ((heartbeat q (heartbeat p hub)).clients ≡ [])
      × ((heartbeat q (heartbeat p hub)).timer ≡ false)
unfolding heartbeat
heartbeat_twice p q hub c =
    let once = keep-Counted hub (beat p hub.clients) (beat-length p hub.clients) c in
    let left = beat q (beat p hub.clients) in
    let twice =
      keep-Counted (keep hub (beat p hub.clients)) left (beat-length q (beat p hub.clients)) once in
    let none_left = beat_twice p q hub.clients in
    (none_left, twice.timed ∙ ap (λ (cs : List Client). not (length cs == 0)) none_left)
