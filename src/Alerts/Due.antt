-- ===== src/Alerts/Due.antt =====
-- connections/webhooks/connection-alert.subscriber.ts: an account that stays down is not forgotten.
use messaging_gateway.Prelude.{
  ℕ, ◌+◌, ◌*◌, ◌^◌, ◌≤◌, min, Option, none, some, Bool, true, false, not, List, [], ◌∷◌,
  if◌then◌else◌, ◌≡◌, is_some, arith, if-elim, ap,
}
use messaging_gateway.Alerts.{
  Outage, Sending, waits, too_soon, start_alert, new_outage, alert_if_due, held, lost_outage, lose,
  on_session_lost, recovered, on_dropped, on_connected, on_timer, on_looked_up, next_after, settle,
  on_answer, Event, deliberate, qr, connected, timer, session_lost, dropped, looked_up, answered,
  step, run, alert_repeat_ms, down_alert_after_ms, retry_max_ms, retry_base_ms, bool_eq,
}

abbrev pub StartedBy : ℕ → Option Sending → Type 0
StartedBy t none = Unit
StartedBy t (some s) = s.started ≤ t

-- Nothing in the outage lies after `t`, but for the next alert, which is at most one repeat away.
pub record Prompt (t : ℕ) (o : Outage) : Type 0 where
  pub since_by : o.since ≤ t
  pub next_by : o.next_alert_at ≤ t + alert_repeat_ms
  pub started_by : StartedBy t o.sending

abbrev pub AllPrompt : ℕ → Option Outage → Type 0
AllPrompt t none = Unit
AllPrompt t (some o) = Prompt t o

new_outage-Prompt : (t now : ℕ) → now ≤ t → Prompt t (new_outage now)
new_outage-Prompt t now h = record { since_by = h; next_by = omega (arith, h); started_by = tt }

alert_if_due-Prompt :
    (t now : ℕ) (o : Outage) → now ≤ t → Prompt t o → Prompt t (alert_if_due now o).0
unfolding alert_if_due
alert_if_due-Prompt t now o h p =
    let begun : Prompt t (start_alert now o).0 = record {
      since_by = p.since_by;
      next_by = p.next_by;
      started_by = h;
    } in
    if-elim (λ (r : Outage × Bool). Prompt t r.0) (waits now o) {x = (o, false)}
      {y = if too_soon now o then (o, false) else start_alert now o} p
      (if-elim (λ (r : Outage × Bool). Prompt t r.0) (too_soon now o) {x = (o, false)}
        {y = start_alert now o} p begun)

lost_outage-Prompt :
    (t now : ℕ) (current : Option Outage)
    → now ≤ t
    → AllPrompt t current
    → Prompt t (lost_outage now current)
lost_outage-Prompt t now none h p = new_outage-Prompt t now h
lost_outage-Prompt t now (some o) h p =
    if-elim (Prompt t) (is_some o.up_since) {x = new_outage now} {y = o} (new_outage-Prompt t now h)
      p

lose-Prompt :
    (t now : ℕ) (code : Option ℕ) (o : Outage) → now ≤ t → Prompt t o → Prompt t (lose now code o)
lose-Prompt t now code o h p =
    if-elim (Prompt t) o.terminal {x = o}
      {y = record o { terminal = true; close_code = code; next_alert_at = now; forwarded = false }}
      p (record { since_by = p.since_by; next_by = omega (arith, h); started_by = p.started_by })

on_dropped-Prompt :
    (t now : ℕ) (code : Option ℕ) (current : Option Outage)
    → now ≤ t
    → AllPrompt t current
    → AllPrompt t (on_dropped now code current)
unfolding on_dropped
on_dropped-Prompt t now code none h p = record {
  since_by = h;
  next_by = omega (arith, h);
  started_by = tt;
}
on_dropped-Prompt t now code (some o) h p =
    if-elim (AllPrompt t) (recovered now o.up_since)
      {x = some (record (new_outage now) { close_code = code })}
      {y = some (record o { up_since = none; terminal = false; close_code = code })}
      (record { since_by = h; next_by = omega (arith, h); started_by = tt })
      (record { since_by = p.since_by; next_by = p.next_by; started_by = p.started_by })

on_connected-Prompt :
    (t now : ℕ) (current : Option Outage)
    → AllPrompt t current
    → AllPrompt t (on_connected now current)
unfolding on_connected
on_connected-Prompt t now none p = tt
on_connected-Prompt t now (some o) p = record {
  since_by = p.since_by;
  next_by = p.next_by;
  started_by = p.started_by;
}

on_timer-Prompt :
    (t now : ℕ) (current : Option Outage)
    → now ≤ t
    → AllPrompt t current
    → AllPrompt t (on_timer now current).0
unfolding on_timer
on_timer-Prompt t now none h p = tt
on_timer-Prompt t now (some o) h p =
    if-elim (λ (r : Option Outage × Bool). AllPrompt t r.0) (recovered now o.up_since)
      {x = (none, false)} {y = held (alert_if_due now o)} tt (alert_if_due-Prompt t now o h p)

on_looked_up-Prompt :
    (t : ℕ) (gone : Bool) (current : Option Outage)
    → AllPrompt t current
    → AllPrompt t (on_looked_up gone current)
unfolding on_looked_up
on_looked_up-Prompt t gone none p = tt
on_looked_up-Prompt t gone (some o) p =
    if-elim (AllPrompt t) (not (is_some o.sending)) {x = some o}
      {y = if gone then none else some (record o { forwarded = true })} p
      (if-elim (AllPrompt t) gone {x = none} {y = some (record o { forwarded = true })} tt
        (record { since_by = p.since_by; next_by = p.next_by; started_by = p.started_by }))

capped-by :
    (t started delay : ℕ) → started ≤ t → started + min delay retry_max_ms ≤ t + alert_repeat_ms
capped-by t started delay h = omega (arith, h)

next_after-by :
    (t : ℕ) (delivered : Bool) (started failed : ℕ)
    → started ≤ t
    → next_after delivered started failed ≤ t + alert_repeat_ms
next_after-by t true started failed h = omega (arith, h)
next_after-by t false started failed h = capped-by t started (retry_base_ms * 2 ^ failed) h

settle-Prompt :
    (t : ℕ) (delivered : Bool) (o : Outage) (s : Option Sending)
    → StartedBy t s
    → Prompt t o
    → Prompt t (settle delivered o s)
settle-Prompt t delivered o none h p = p
settle-Prompt t delivered o (some s) h p = record {
  since_by = p.since_by;
  next_by =
      if-elim (λ n. n ≤ t + alert_repeat_ms) (bool_eq o.terminal s.as_terminal)
        (next_after-by t delivered s.started o.failed_attempts h) (omega (arith, h));
  started_by = tt;
}

on_answer-Prompt :
    (t : ℕ) (delivered : Bool) (current : Option Outage)
    → AllPrompt t current
    → AllPrompt t (on_answer delivered current)
unfolding on_answer
on_answer-Prompt t delivered none p = tt
on_answer-Prompt t delivered (some o) p = settle-Prompt t delivered o o.sending p.started_by p

step-Prompt :
    (t now : ℕ) (current : Option Outage) (e : Event)
    → now ≤ t
    → AllPrompt t current
    → AllPrompt t (step current now e).0
unfolding step on_session_lost
step-Prompt t now current deliberate h p = tt
step-Prompt t now current qr h p = tt
step-Prompt t now current connected h p = on_connected-Prompt t now current p
step-Prompt t now current timer h p = on_timer-Prompt t now current h p
step-Prompt t now current (session_lost code) h p =
    alert_if_due-Prompt t now (lose now code (lost_outage now current)) h
      (lose-Prompt t now code (lost_outage now current) h (lost_outage-Prompt t now current h p))
step-Prompt t now current (dropped code) h p = on_dropped-Prompt t now code current h p
step-Prompt t now current (looked_up gone) h p = on_looked_up-Prompt t gone current p
step-Prompt t now current (answered delivered) h p = on_answer-Prompt t delivered current p

abbrev pub AllBy : ℕ → List (ℕ × Event) → Type 0
AllBy t [] = Unit
AllBy t ((now, e) ∷ es) = (now ≤ t) × AllBy t es

run-Prompt :
    (t : ℕ) (es : List (ℕ × Event)) (current : Option Outage)
    → AllBy t es
    → AllPrompt t current
    → AllPrompt t (run current es)
unfolding run
run-Prompt t [] current h p = p
run-Prompt t ((now, e) ∷ es) current (h, hs) p =
    run-Prompt t es (step current now e).0 hs (step-Prompt t now current e h p)

timer_starts :
    (now : ℕ) (o : Outage)
    → recovered now o.up_since ≡ false
    → waits now o ≡ false
    → too_soon now o ≡ false
    → (on_timer now (some o)).1 ≡ true
unfolding on_timer alert_if_due
timer_starts now o r w s = simp (r, w, s)

due_alerts :
    (now : ℕ) (o : Outage)
    → o.up_since ≡ none
    → o.sending ≡ none
    → o.next_alert_at ≤ now
    → o.since + down_alert_after_ms ≤ now
    → (on_timer now (some o)).1 ≡ true
due_alerts now o up idle next long =
    let on_time : waits now o ≡ false = ground (arith, up, idle, next) in
    let in_time : too_soon now o ≡ false = ground (arith, long) in
    timer_starts now o (ap (recovered now) up) on_time in_time

-- Whatever has happened until `t`, an account that has been down and not connected since, and of
-- which no alert is on its way, gets one at every check of the timer that comes a repeat, six hours,
-- after `t` or later.
pub timer_alerts :
    (t later : ℕ) (es : List (ℕ × Event)) (o : Outage)
    → AllBy t es
    → run none es ≡ some o
    → o.up_since ≡ none
    → o.sending ≡ none
    → t + alert_repeat_ms ≤ later
    → (step (run none es) later timer).1 ≡ true
unfolding step
timer_alerts t later es o h r up idle due =
    let p : Prompt t o = rw r at (run-Prompt t es none h tt) in
    rw r
      (due_alerts later o up idle (omega (arith, due, p.next_by)) (omega (arith, due, p.since_by)))
