-- ===== src/Sockets.antt =====
-- integrations/whatsapp/baileys/baileys-socket.manager.ts, BaileysSocketManager: what the manager keeps for
-- one account, and every call and event that changes it. A socket is the number of its making; what
-- Baileys does is an event: a socket's `connection.update`, the end of a logout, the end of the
-- awaits of `openSocket`. Left out: the handlers' own work, the caches and WhatsApp's version.
pub mod Down
pub mod Exit
pub mod Single
mod Updates
pub mod One
pub mod Kept
pub mod Backoff
mod Tests
use messaging_gateway.Prelude.{
  ℕ, ◌+◌, ◌-◌, ◌*◌, ◌^◌, String, Option, none, some, Bool, true, false, not, ◌&&◌, ◌||◌, List, [],
  ◌∷◌, if◌then◌else◌, ◌==◌, leb, is_some, any, filter, min, max,
}
use messaging_gateway.Alerts.{stable_connection_ms}

pub data ConnectionEnd : Type 0 where
  session_lost closed : ConnectionEnd

pub data ConnectionStatus : Type 0 where
  connecting connected disconnected : ConnectionStatus

pub record Entry : Type 0 where
  pub socket : ℕ
  pub connection_status : ConnectionStatus
  pub last_qr : Option String
  pub opened_at : Option ℕ

-- Whose connect is in flight: `reconnect`'s schedules another when it fails.
pub data Caller : Type 0 where
  asked retried : Caller

-- `exiting` is the field `closed`. `live` are the sockets whose events still arrive, `leaving` those whose
-- logout `disconnect` awaits, and `made` how many were made. A timer is its delay.
pub record Manager : Type 0 where
  pub exiting : Bool
  pub entry : Option Entry
  pub in_flight : Option Caller
  pub clearing : Bool
  pub ended : Option ConnectionEnd
  pub timer : Option ℕ
  pub attempts : ℕ
  pub wired : Bool
  pub leaving : List ℕ
  pub live : List ℕ
  pub made : ℕ

abbrev pub new_manager : Manager
new_manager = record {
  exiting = false;
  entry = none;
  in_flight = none;
  clearing = false;
  ended = none;
  timer = none;
  attempts = 0;
  wired = false;
  leaving = [];
  live = [];
  made = 0;
}

-- `config.retryOnDisconnect`, and the jitter: what `Math.round(random() * ceiling)` comes to.
pub record Setup : Type 0 where
  pub retry_on_disconnect : Bool
  pub jitter : ℕ → ℕ

abbrev pub default_base_ms : ℕ
default_base_ms = 1000

abbrev pub default_max_ms : ℕ
default_max_ms = 300000

abbrev pub backoff_ceiling : ℕ → ℕ
backoff_ceiling attempt = min default_max_ms (default_base_ms * 2 ^ attempt)

abbrev pub connection_replaced_min_delay_ms : ℕ
connection_replaced_min_delay_ms = 300000

-- DisconnectReason of Baileys: loggedOut, forbidden and connectionReplaced.
abbrev pub session_lost_code : Option ℕ → Bool
session_lost_code none = false
session_lost_code (some code) = code == 401 || code == 403

abbrev pub connection_replaced : Option ℕ → Bool
connection_replaced none = false
connection_replaced (some code) = code == 440

abbrev pub clear_reconnect_timer : Manager → Manager
clear_reconnect_timer m = record m { timer = none }

abbrev pub cancel_reconnect : Manager → Manager
cancel_reconnect m = record m { timer = none; attempts = 0 }

abbrev pub delay_ms : Setup → ℕ → Option ℕ → ℕ
delay_ms setup attempt code =
    let backoff = setup.jitter (backoff_ceiling attempt) in
    if connection_replaced code then max backoff connection_replaced_min_delay_ms else backoff

unfoldable pub schedule_reconnect : Setup → Option ℕ → Manager → Manager
schedule_reconnect setup code m =
    if is_some m.timer
    then m
    else record m { attempts = m.attempts + 1; timer = some (delay_ms setup m.attempts code) }

unfoldable pub without : ℕ → List ℕ → List ℕ
without s live = filter (λ other. not (other == s)) live

-- One `disconnect` less awaits the logout of that socket.
abbrev pub remove_one : ℕ → List ℕ → List ℕ
remove_one s [] = []
remove_one s (x ∷ xs) = if x == s then xs else x ∷ remove_one s xs

-- `closeSocket`: nothing of the entry's socket arrives any more.
abbrev pub close_socket : Option Entry → List ℕ → List ℕ
close_socket none live = live
close_socket (some e) live = without e.socket live

abbrev pub drop_socket : Manager → Manager
drop_socket m = record m { entry = none; live = close_socket m.entry m.live }

unfoldable pub connect : Caller → Manager → Manager
connect caller m =
    if m.exiting || m.clearing
    then m
    else if is_some m.entry
    then m
    else if is_some m.in_flight
    then record m { ended = none }
    else record m { timer = none; ended = none; in_flight = some caller }

abbrev pub is_closed : Option ConnectionEnd → Bool
is_closed (some closed) = true
is_closed _ = false

abbrev pub open_socket : Manager → Manager
open_socket m = record m {
  in_flight = none;
  entry = some (record {
    socket = m.made;
    connection_status = connecting;
    last_qr = none;
    opened_at = none;
  });
  live = m.made ∷ m.live;
  made = m.made + 1;
}

-- The awaits of `openSocket` end, with or without an error.
abbrev pub on_awaited : Setup → Bool → Option Caller → Manager → Manager
on_awaited setup ok none m = m
on_awaited setup true (some caller) m =
    if m.exiting || is_closed m.ended then record m { in_flight = none } else open_socket m
on_awaited setup false (some asked) m = record m { in_flight = none }
on_awaited setup false (some retried) m =
    schedule_reconnect setup none (record m { in_flight = none })

unfoldable pub reconnect : Manager → Manager
unfolding connect
reconnect m =
    if m.clearing || is_some m.ended then m else connect retried (record m { entry = none })

unfoldable pub ensure_connected : Setup → Manager → Manager
unfolding reconnect
ensure_connected setup m =
    if is_some m.entry
      || is_some m.in_flight
      || is_some m.timer
      || m.clearing
      || is_some m.ended
      || not m.wired
      || not setup.retry_on_disconnect
    then m
    else reconnect m

abbrev pub on_timer : Option ℕ → Manager → Manager
on_timer none m = m
on_timer (some delay) m = reconnect (clear_reconnect_timer m)

-- A `connection.update`: a QR code, and what became of the connection with the status code.
pub data Change : Type 0 where
  no_change opens : Change
  closes : Option ℕ → Change

pub record Update : Type 0 where
  pub qr : Option String
  pub change : Change
  pub now : ℕ

abbrev pub with_qr : Option String → Entry → Entry
with_qr none e = e
with_qr (some qr) e = record e { last_qr = some qr; connection_status = connecting }

-- The streak of failures is forgotten after a connection that was stable.
abbrev pub attempts_after : ℕ → Option ℕ → ℕ → ℕ
attempts_after now none attempts = attempts
attempts_after now (some since) attempts =
    if leb stable_connection_ms (now - since) then 0 else attempts

abbrev pub lost_end : Bool → Option ConnectionEnd → Option ConnectionEnd
lost_end true none = some session_lost
lost_end _ ended = ended

-- The dead entry stays until the timer replaces it, or the connection is over for good.
abbrev pub after_close : Bool → Setup → ℕ → Option ℕ → Entry → Manager → Manager
after_close true setup now code e m = schedule_reconnect setup code (record m {
  attempts = attempts_after now e.opened_at m.attempts;
  entry = some (record e { connection_status = disconnected; last_qr = none; opened_at = none });
})
after_close false setup now code e m = record m {
  ended = lost_end (session_lost_code code) m.ended;
  timer = none;
  attempts = 0;
  entry = none;
}

abbrev pub should_reconnect : Setup → Option ℕ → Manager → Bool
should_reconnect setup code m =
    not (session_lost_code code) && setup.retry_on_disconnect && not m.clearing

-- The update of the entry's own socket.
abbrev pub on_current : Setup → Update → Entry → Manager → Manager
on_current setup u e m = elim u.change [
  | no_change ↦ record m { entry = some (with_qr u.qr e) }
  | opens ↦ record m {
    entry =
        some (record e { opened_at = some u.now; connection_status = connected; last_qr = none });
  }
  | closes code ↦ after_close (should_reconnect setup code m) setup u.now code e m
]

abbrev pub is_current : ℕ → Option Entry → Bool
is_current s none = false
is_current s (some e) = e.socket == s

abbrev pub gone : ℕ → Change → List ℕ → List ℕ
gone s (closes code) live = without s live
gone s _ live = live

-- News of a socket that was replaced or dropped changes nothing, but that it is closed.
abbrev pub at_entry : Setup → ℕ → Update → Option Entry → Manager → Manager
at_entry setup s u none m = m
at_entry setup s u (some e) m = if e.socket == s then on_current setup u e m else m

unfoldable pub on_update : Setup → ℕ → Update → Manager → Manager
unfolding without
on_update setup s u m =
    if any (λ other. other == s) m.live
    then at_entry setup s u m.entry (record m { live = gone s u.change m.live })
    else m

abbrev pub awaits_logout : Option Entry → List ℕ → List ℕ
awaits_logout none leaving = leaving
awaits_logout (some e) leaving = e.socket ∷ leaving

-- `disconnect` up to the logout, and after it.
abbrev pub disconnect : Manager → Manager
disconnect m = record (cancel_reconnect m) {
  ended = some closed;
  wired = false;
  leaving = awaits_logout m.entry m.leaving;
}

unfoldable pub on_logged_out : ℕ → Manager → Manager
unfolding without
on_logged_out s m =
    if any (λ other. other == s) m.leaving
    then record m { leaving = remove_one s m.leaving; live = without s m.live; entry = none }
    else m

abbrev pub close_connection : Manager → Manager
close_connection m = drop_socket (record (cancel_reconnect m) { ended = some closed })

abbrev pub close_all : Manager → Manager
close_all m =
    let timers = if is_some m.timer then cancel_reconnect m else m in
    drop_socket (record timers { exiting = true })

-- `clearSession` up to the deletion of the files, and after it.
abbrev pub clear_session : Manager → Manager
clear_session m = drop_socket (record (cancel_reconnect m) { clearing = true })

abbrev pub forget_account : Manager → Manager
forget_account m = if is_some m.in_flight then m else record m { ended = none }

pub data Event : Type 0 where
  connects disconnects closes_connection exits clears cleared ensures fires registers forgets :
      Event
  awaited : Bool → Event
  updated : ℕ → Update → Event
  logged_out : ℕ → Event

unfoldable pub step : Setup → Manager → Event → Manager
unfolding connect schedule_reconnect reconnect ensure_connected on_update on_logged_out
step setup m connects = connect asked m
step setup m disconnects = disconnect m
step setup m closes_connection = close_connection m
step setup m exits = close_all m
step setup m clears = clear_session m
step setup m cleared = record m { clearing = false }
step setup m ensures = ensure_connected setup m
step setup m fires = on_timer m.timer m
step setup m registers = record m { wired = true }
step setup m forgets = forget_account m
step setup m (awaited ok) = on_awaited setup ok m.in_flight m
step setup m (updated s u) = on_update setup s u m
step setup m (logged_out s) = on_logged_out s m

unfoldable pub run : Setup → Manager → List Event → Manager
unfolding step
run setup m [] = m
run setup m (e ∷ es) = run setup (step setup m e) es
