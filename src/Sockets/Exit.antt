-- ===== src/Sockets/Exit.antt =====
-- integrations/whatsapp/baileys/baileys-socket.manager.ts, closeAll: from the exit on no socket is made.
use messaging_gateway.Prelude.{
  ℕ, Option, none, some, Bool, true, false, ◌||◌, List, [], ◌∷◌, ◌==◌, ◌≡◌, refl, ◌∙◌, is_some, any,
  arith, Bool-cases, inl, inr, if-case,
}
use messaging_gateway.Sockets.{
  Entry, Caller, asked, retried, Manager, Setup, schedule_reconnect, connect, on_awaited, reconnect,
  ensure_connected, on_timer, after_close, should_reconnect, on_current, Change, no_change, opens,
  closes, Update, at_entry, on_update, on_logged_out, is_closed, Event, connects, disconnects,
  closes_connection, exits, clears, cleared, ensures, fires, registers, forgets, awaited, updated,
  logged_out, step, run, clear_reconnect_timer,
}

-- From one state to the next: still exiting, and nothing made.
record Exiting (made : ℕ) (m : Manager) : Type 0 where
  exiting : m.exiting ≡ true
  unmade : m.made ≡ made

same_made :
    (n : ℕ) (m k : Manager) → k.exiting ≡ m.exiting → k.made ≡ m.made → Exiting n m → Exiting n k
same_made n m k e d x = record { exiting = e ∙ x.exiting; unmade = d ∙ x.unmade }

schedule-Exiting :
    (setup : Setup) (code : Option ℕ) (n : ℕ) (m : Manager)
    → Exiting n m
    → Exiting n (schedule_reconnect setup code m)
unfolding schedule_reconnect
schedule-Exiting setup code n m x =
    if-case (Exiting n) (is_some m.timer) (λ there. x)
      (λ new. record { exiting = x.exiting; unmade = x.unmade })

connect-Exiting :
    (caller : Caller) (n : ℕ) (m : Manager) → Exiting n m → Exiting n (connect caller m)
unfolding connect
connect-Exiting caller n m x =
    let stops : (m.exiting || m.clearing) ≡ true = ground (arith, x.exiting) in rw stops x

reconnect-Exiting : (n : ℕ) (m : Manager) → Exiting n m → Exiting n (reconnect m)
unfolding reconnect
reconnect-Exiting n m x =
    if-case (Exiting n) (m.clearing || is_some m.ended) (λ held. x)
      (λ free.
        connect-Exiting retried n (record m { entry = none })
          (record { exiting = x.exiting; unmade = x.unmade }))

ensures-Exiting :
    (setup : Setup) (n : ℕ) (m : Manager) → Exiting n m → Exiting n (ensure_connected setup m)
unfolding ensure_connected
ensures-Exiting setup n m x = if-case (Exiting n) _ (λ covered. x) (λ free. reconnect-Exiting n m x)

timer-Exiting :
    (timer : Option ℕ) (n : ℕ) (m : Manager) → Exiting n m → Exiting n (on_timer timer m)
timer-Exiting none n m x = x
timer-Exiting (some delay) n m x =
    reconnect-Exiting n (clear_reconnect_timer m)
      (record { exiting = x.exiting; unmade = x.unmade })

awaited-Exiting :
    (setup : Setup) (ok : Bool) (caller : Option Caller) (n : ℕ) (m : Manager)
    → Exiting n m
    → Exiting n (on_awaited setup ok caller m)
awaited-Exiting setup ok none n m x = x
awaited-Exiting setup true (some caller) n m x =
    let stops : (m.exiting || is_closed m.ended) ≡ true = ground (arith, x.exiting) in
    rw stops (same_made n m _ refl refl x)
awaited-Exiting setup false (some asked) n m x = record { exiting = x.exiting; unmade = x.unmade }
awaited-Exiting setup false (some retried) n m x =
    schedule-Exiting setup none n (record m { in_flight = none })
      (record { exiting = x.exiting; unmade = x.unmade })

close-Exiting :
    (again : Bool) (setup : Setup) (now : ℕ) (code : Option ℕ) (e : Entry) (n : ℕ) (m : Manager)
    → Exiting n m
    → Exiting n (after_close again setup now code e m)
close-Exiting true setup now code e n m x =
    schedule-Exiting setup code n _ (record { exiting = x.exiting; unmade = x.unmade })
close-Exiting false setup now code e n m x = record { exiting = x.exiting; unmade = x.unmade }

current-Exiting :
    (setup : Setup) (u : Update) (change : Change) (e : Entry) (n : ℕ) (m : Manager)
    → u.change ≡ change
    → Exiting n m
    → Exiting n (on_current setup u e m)
current-Exiting setup u no_change e n m is x =
    rw is (record { exiting = x.exiting; unmade = x.unmade })
current-Exiting setup u opens e n m is x = rw is (record { exiting = x.exiting; unmade = x.unmade })
current-Exiting setup u (closes code) e n m is x =
    rw is (close-Exiting (should_reconnect setup code m) setup u.now code e n m x)

entry-Exiting :
    (setup : Setup) (s : ℕ) (u : Update) (e : Option Entry) (n : ℕ) (m : Manager)
    → Exiting n m
    → Exiting n (at_entry setup s u e m)
entry-Exiting setup s u none n m x = x
entry-Exiting setup s u (some e) n m x =
    if-case (Exiting n) (e.socket == s) (λ it. current-Exiting setup u u.change e n m refl x)
      (λ other. x)

step-Exiting :
    (setup : Setup) (n : ℕ) (m : Manager) (e : Event) → Exiting n m → Exiting n (step setup m e)
unfolding step on_update on_logged_out
step-Exiting setup n m connects x = connect-Exiting asked n m x
step-Exiting setup n m disconnects x = same_made n m _ refl refl x
step-Exiting setup n m closes_connection x = same_made n m _ refl refl x
step-Exiting setup n m exits x = record {
  exiting = refl;
  unmade = elim (Bool-cases (is_some m.timer)) [
    | inl pending ↦ rw pending x.unmade
    | inr idle_ ↦ rw idle_ x.unmade
  ];
}
step-Exiting setup n m clears x = same_made n m _ refl refl x
step-Exiting setup n m cleared x = same_made n m _ refl refl x
step-Exiting setup n m ensures x = ensures-Exiting setup n m x
step-Exiting setup n m fires x = timer-Exiting m.timer n m x
step-Exiting setup n m registers x = same_made n m _ refl refl x
step-Exiting setup n m forgets x =
    if-case (Exiting n) (is_some m.in_flight) (λ there. x) (λ free. same_made n m _ refl refl x)
step-Exiting setup n m (awaited ok) x = awaited-Exiting setup ok m.in_flight n m x
step-Exiting setup n m (updated s u) x =
    if-case (Exiting n) (any (λ other. other == s) m.live)
      (λ there. entry-Exiting setup s u m.entry n _ (same_made n m _ refl refl x)) (λ stale. x)
step-Exiting setup n m (logged_out s) x =
    if-case (Exiting n) (any (λ other. other == s) m.leaving) (λ there. same_made n m _ refl refl x)
      (λ other. x)

from-Exiting :
    (setup : Setup) (n : ℕ) (es : List Event) (m : Manager)
    → Exiting n m
    → Exiting n (run setup m es)
unfolding run
from-Exiting setup n [] m x = x
from-Exiting setup n (e ∷ es) m x =
    from-Exiting setup n es (step setup m e) (step-Exiting setup n m e x)

-- Once the process exits no socket is made, whatever is asked for and whatever still comes.
pub run-Exiting :
    (setup : Setup) (es : List Event) (m : Manager)
    → m.exiting ≡ true
    → (run setup m es).made ≡ m.made
run-Exiting setup es m x =
    (from-Exiting setup m.made es m (record { exiting = x; unmade = refl })).unmade
