-- ===== src/Sockets/Tests.antt =====
-- The socket manager at concrete runs.
use messaging_gateway.Prelude.{ℕ, none, some, true, false, List, [], ◌∷◌, ◌≡◌, refl}
use messaging_gateway.Sockets.{
  Manager, new_manager, Setup, Update, opens, closes, Event, connects, disconnects,
  closes_connection, ensures, fires, registers, awaited, updated, logged_out, step, run,
}
use messaging_gateway.Sockets.Down.{Down, run-Down}
use messaging_gateway.Sockets.Single.{Single}
use messaging_gateway.Sockets.One.{run-Single}
use messaging_gateway.Sockets.Kept.{Healthy, Covered, is_open, run-Covered}

abbrev half : Setup
half = record { retry_on_disconnect = true; jitter = λ n. n }

abbrev opened_update : Update
opened_update = record { qr = none; change = opens; now = 10 }

abbrev closed_with : ℕ → Update
closed_with code = record { qr = none; change = closes (some code); now = 20 }

abbrev opening : List Event
opening = registers ∷ connects ∷ awaited true ∷ updated 0 opened_update ∷ []

abbrev opened : Manager
opened = run half new_manager opening

-- The connection drops, a retry fails and another comes through: the second socket.
abbrev outage : List Event
outage = updated 0 (closed_with 428) ∷ fires ∷ awaited false ∷ fires ∷ awaited true ∷ []

second_socket : (run half opened outage).live ≡ 1 ∷ []
unfolding run
second_socket = refl

run-Single_example : Single (run half new_manager opening)
unfolding run
run-Single_example = run-Single half opening (refl, (refl, (refl, (refl, tt))))

run-Covered_example : Covered (run half opened outage) × Healthy (run half opened outage)
unfolding run
run-Covered_example =
    run-Covered half outage opened refl (refl, (refl, (refl, (refl, (refl, tt)))))
      (run-Single half opening (refl, (refl, (refl, (refl, tt)))))
      (record { stays = refl; kept = refl; lives = refl }) (is_open _ refl refl)

-- Somebody closes the connection while it is open; what came before it still arrives.
abbrev closed_by_hand : Manager
closed_by_hand = step half opened closes_connection

abbrev afterwards : List Event
afterwards = ensures ∷ fires ∷ updated 0 (closed_with 428) ∷ awaited true ∷ []

run-Down_example :
    ((run half closed_by_hand afterwards).made ≡ closed_by_hand.made)
    × Down (run half closed_by_hand afterwards)
unfolding run step
run-Down_example =
    run-Down half closed_by_hand afterwards (refl, (refl, (refl, (refl, tt))))
      (record { no_entry = refl; is_ended = refl; gives_up = λ h. refl })

-- WhatsApp ends the session while a logout is awaited, and a connect comes before the logout's end: the end
-- drops the entry of the new socket, which stays open without one.
abbrev overtaken : List Event
overtaken = disconnects ∷ updated 0 (closed_with 401) ∷ connects ∷ awaited true ∷ logged_out 0 ∷ []

overtaken-entry : (run half opened overtaken).entry ≡ none
unfolding run
overtaken-entry = refl

overtaken-live : (run half opened overtaken).live ≡ 1 ∷ []
unfolding run
overtaken-live = refl
