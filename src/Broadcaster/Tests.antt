-- ===== src/Broadcaster/Tests.antt =====
-- The WebSocket's clients in concrete runs.

use messaging_gateway.Prelude.{ℕ, none, some, true, false, List, [], ◌∷◌, ◌≡◌, refl, All}
use messaging_gateway.Auth.{admin, read}
use messaging_gateway.Broadcaster.{
  Hub, Client, ConnectionUpdate, on_connection_update, frames, wants, broadcast, unsubscribe,
}
use messaging_gateway.Broadcaster.Frames.{NoCode, on_connection_update-NoCode}
use messaging_gateway.Broadcaster.Beats.{Counted, Event, joins, asks, beats}

abbrev events : List Event
events =
    joins 1 ("shop" ∷ []) read
    ∷ joins 2 [] admin
    ∷ beats (λ socket. false)
    ∷ asks 1 (unsubscribe ("shop" ∷ []))
    ∷ beats (λ socket. false)
    ∷ []

abbrev client_of : ℕ → Client
client_of socket = record {
  socket = socket;
  is_open = true;
  account_filter = none;
  scope = read;
  is_alive = true;
}

abbrev hub : Hub
hub = record {
  clients = client_of 1 ∷ record (client_of 2) { scope = admin } ∷ [];
  timer = true;
  gauge = 2;
}

abbrev update : ConnectionUpdate
update = record { status = "connecting"; qr = some (some "2@abc") }

admin_gets_code :
    (on_connection_update (λ socket. false) hub (some "shop") update).1
    ≡ (client_of 1, record update { qr = some none })
      ∷ (record (client_of 2) { scope = admin }, update)
      ∷ []
unfolding on_connection_update broadcast frames wants
admin_gets_code = refl

on_connection_update-NoCode_example :
    All NoCode (on_connection_update (λ socket. false) hub (some "shop") update).1
on_connection_update-NoCode_example =
    on_connection_update-NoCode (λ socket. false) hub (some "shop") update

hub-Counted : Counted hub
hub-Counted = record { counts = refl; timed = refl }
