-- ===== src/Alerts.antt =====
-- connections/webhooks/connection-alert.subscriber.ts: the outage of one account, and when someone is told.
-- What the waits of an alert bring (the account's lookup, the webhook's answer) are events like those of
-- the connection; an alert still on its way about an outage that was replaced changes nothing, and has none.
pub mod Due
mod Tests
use Prim.Native.String
use messaging_gateway.Prelude.{
  String, str_eq, ℕ, ◌+◌, ◌-◌, ◌*◌, ◌^◌, min, Option, none, some, Bool, true, false, not, ◌&&◌,
  ◌||◌, List, [], ◌∷◌, if◌then◌else◌, ltb, leb, is_some,
}

abbrev pub stable_connection_ms : ℕ
stable_connection_ms = 60000

abbrev pub down_alert_after_ms : ℕ
down_alert_after_ms = 900000

abbrev pub alert_repeat_ms : ℕ
alert_repeat_ms = 21600000

abbrev pub retry_base_ms : ℕ
retry_base_ms = 30000

abbrev pub retry_max_ms : ℕ
retry_max_ms = 900000

-- An alert on its way: the `now` and the `terminal` that it was sent with.
pub record Sending : Type 0 where
  pub started : ℕ
  pub as_terminal : Bool

pub record Outage : Type 0 where
  pub since : ℕ
  pub terminal : Bool
  pub close_code : Option ℕ
  pub up_since : Option ℕ
  pub next_alert_at : ℕ
  pub failed_attempts : ℕ
  pub forwarded : Bool
  pub sending : Option Sending

abbrev pub new_outage : ℕ → Outage
new_outage now = record {
  since = now;
  terminal = false;
  close_code = none;
  up_since = none;
  next_alert_at = now;
  failed_attempts = 0;
  forwarded = false;
  sending = none;
}

abbrev pub waits : ℕ → Outage → Bool
waits now o = is_some o.up_since || is_some o.sending || ltb now o.next_alert_at

abbrev pub too_soon : ℕ → Outage → Bool
too_soon now o = not o.terminal && ltb (now - o.since) down_alert_after_ms

abbrev pub start_alert : ℕ → Outage → Outage × Bool
start_alert now o =
    (record o { sending = some (record { started = now; as_terminal = o.terminal }) }, true)

-- `alertIfDue` up to its first wait, and whether an alert starts.
unfoldable pub alert_if_due : ℕ → Outage → Outage × Bool
alert_if_due now o =
    if waits now o then (o, false) else if too_soon now o then (o, false) else start_alert now o

abbrev pub held : Outage × Bool → Option Outage × Bool
held (o, alerts) = (some o, alerts)

-- The outage that a lost session belongs to.
abbrev pub lost_outage : ℕ → Option Outage → Outage
lost_outage now none = new_outage now
lost_outage now (some o) = if is_some o.up_since then new_outage now else o

abbrev pub lose : ℕ → Option ℕ → Outage → Outage
lose now code o =
    if o.terminal
    then o
    else record o { terminal = true; close_code = code; next_alert_at = now; forwarded = false }

unfoldable pub on_session_lost : ℕ → Option ℕ → Option Outage → Option Outage × Bool
on_session_lost now code current = held (alert_if_due now (lose now code (lost_outage now current)))

abbrev pub recovered : ℕ → Option ℕ → Bool
recovered now none = false
recovered now (some up) = leb stable_connection_ms (now - up)

unfoldable pub on_dropped : ℕ → Option ℕ → Option Outage → Option Outage
on_dropped now code none = some (record (new_outage now) { close_code = code })
on_dropped now code (some o) =
    if recovered now o.up_since
    then some (record (new_outage now) { close_code = code })
    else some (record o { up_since = none; terminal = false; close_code = code })

-- `upSince ??= now`
abbrev pub since_or : ℕ → Option ℕ → Option ℕ
since_or now none = some now
since_or now (some up) = some up

unfoldable pub on_connected : ℕ → Option Outage → Option Outage
on_connected now none = none
on_connected now (some o) = some (record o { up_since = since_or now o.up_since })

-- One account's turn of the timer.
unfoldable pub on_timer : ℕ → Option Outage → Option Outage × Bool
on_timer now none = (none, false)
on_timer now (some o) =
    if recovered now o.up_since then (none, false) else held (alert_if_due now o)

-- The account was looked up: an alert of one that is gone or suspended is dropped with its outage.
unfoldable pub on_looked_up : Bool → Option Outage → Option Outage
on_looked_up gone none = none
on_looked_up gone (some o) =
    if not (is_some o.sending)
    then some o
    else if gone
    then none
    else some (record o { forwarded = true })

abbrev pub bool_eq : Bool → Bool → Bool
bool_eq true b = b
bool_eq false b = not b

abbrev pub next_after : Bool → ℕ → ℕ → ℕ
next_after delivered started failed =
    if delivered
    then started + alert_repeat_ms
    else started + min (retry_base_ms * 2 ^ failed) retry_max_ms

-- The end of `alertIfDue`.
abbrev pub settle : Bool → Outage → Option Sending → Outage
settle delivered o none = o
settle delivered o (some s) = record o {
  failed_attempts = if delivered then 0 else o.failed_attempts + 1;
  next_alert_at =
      if bool_eq o.terminal s.as_terminal
      then next_after delivered s.started o.failed_attempts
      else s.started;
  sending = none;
}

unfoldable pub on_answer : Bool → Option Outage → Option Outage
on_answer delivered none = none
on_answer delivered (some o) = some (settle delivered o o.sending)

pub data Event : Type 0 where
  deliberate qr connected timer : Event
  session_lost dropped : Option ℕ → Event
  looked_up answered : Bool → Event

-- The payload of `connection.update`, of which only some fields matter here.
pub record Update : Type 0 where
  pub status : String
  pub has_qr : Bool
  pub close_code : Option ℕ
  pub deliberate : Bool

-- `onConnectionUpdate`: which of the events above a payload is, if any.
unfoldable pub event_of : Update → Option Event
event_of u =
    if u.deliberate
    then some deliberate
    else if str_eq u.status "auth_expired"
    then some (session_lost u.close_code)
    else if str_eq u.status "connected"
    then some connected
    else if u.has_qr
    then some qr
    else if str_eq u.status "disconnected"
    then some (dropped u.close_code)
    else none

-- The outage after an event, and whether it starts an alert.
unfoldable pub step : Option Outage → ℕ → Event → Option Outage × Bool
step current now deliberate = (none, false)
step current now qr = (none, false)
step current now connected = (on_connected now current, false)
step current now timer = on_timer now current
step current now (session_lost code) = on_session_lost now code current
step current now (dropped code) = (on_dropped now code current, false)
step current now (looked_up gone) = (on_looked_up gone current, false)
step current now (answered delivered) = (on_answer delivered current, false)

unfoldable pub run : Option Outage → List (ℕ × Event) → Option Outage
unfolding step
run current [] = current
run current ((now, e) ∷ es) = run (step current now e).0 es
