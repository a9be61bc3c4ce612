-- ===== src/Alerts/Tests.antt =====
-- The outage of an account in a concrete run.
use messaging_gateway.Prelude.{ℕ, none, some, true, false, List, [], ◌∷◌, ◌≡◌, refl, arith}
use messaging_gateway.Alerts.{
  Outage, Event, dropped, timer, looked_up, answered, step, run, on_dropped, on_timer, alert_if_due,
  on_looked_up, on_answer,
}
use messaging_gateway.Alerts.Due.{AllBy, timer_alerts}

-- The connection drops, and the alert fifteen minutes later is not delivered.
abbrev events : List (ℕ × Event)
events =
    (1000, dropped (some 428))
    ∷ (901000, timer)
    ∷ (901001, looked_up false)
    ∷ (901002, answered false)
    ∷ []

abbrev outage : Outage
outage = record {
  since = 1000;
  terminal = false;
  close_code = some 428;
  up_since = none;
  next_alert_at = 931000;
  failed_attempts = 1;
  forwarded = true;
  sending = none;
}

retries_later : run none events ≡ some outage
unfolding run on_dropped on_timer alert_if_due on_looked_up on_answer
retries_later = refl

events-AllBy : AllBy 901002 events
events-AllBy = (ground arith, (ground arith, (ground arith, (ground arith, tt))))

timer_alerts_example : (step (run none events) 22501002 timer).1 ≡ true
timer_alerts_example =
    timer_alerts 901002 22501002 events outage events-AllBy retries_later refl refl (ground arith)
