-- ===== src/Sockets/Down.antt =====
-- integrations/whatsapp/baileys/baileys-socket.manager.ts: an account whose connection ended, and a process that
-- exits, open no socket.
use messaging_gateway.Prelude.{
  ℕ, Option, none, some, Bool, true, false, ◌||◌, List, [], ◌∷◌, ◌==◌, ◌≡◌, refl, ap, ◌∙◌, is_some,
  any, arith, All, Bool-cases, inl, inr,
}
use messaging_gateway.Sockets.{
  Caller, asked, retried, Manager, Setup, schedule_reconnect, on_awaited, reconnect,
  clear_reconnect_timer, ensure_connected, on_timer, on_update, on_logged_out, is_closed, Event,
  connects, disconnects, closes_connection, exits, clears, cleared, ensures, fires, registers,
  forgets, awaited, updated, logged_out, step, run,
}

-- No socket, none on its way that will not give up, and an end that holds retries back.
pub record Down (m : Manager) : Type 0 where
  pub no_entry : m.entry ≡ none
  pub is_ended : is_some m.ended ≡ true
  pub gives_up : is_some m.in_flight ≡ true → is_closed m.ended ≡ true

-- Any event but a connect and the account's removal.
abbrev pub leaves_it : Event → Bool
leaves_it connects = false
leaves_it forgets = false
leaves_it _ = true

record Still (m n : Manager) : Type 0 where
  down : Down n
  unmade : n.made ≡ m.made

schedule-Still :
    (setup : Setup) (code : Option ℕ) (m : Manager)
    → Down m
    → Still m (schedule_reconnect setup code m)
unfolding schedule_reconnect
schedule-Still setup code m d = elim (Bool-cases (is_some m.timer)) [
  | inl there ↦ rw there (record { down = d; unmade = refl })
  | inr new ↦ rw new (record {
    down = record { no_entry = d.no_entry; is_ended = d.is_ended; gives_up = d.gives_up };
    unmade = refl;
  })
]

as_it_was : (m : Manager) → Down m → Still m m
as_it_was m d = record { down = d; unmade = refl }

ensure_connected-ended :
    (setup : Setup) (m : Manager) → is_some m.ended ≡ true → ensure_connected setup m ≡ m
unfolding ensure_connected
ensure_connected-ended setup m h = ground (arith, h)

reconnect-ended : (m : Manager) → is_some m.ended ≡ true → reconnect m ≡ m
unfolding reconnect
reconnect-ended m h = ground (arith, h)

timer-Still : (timer : Option ℕ) (m : Manager) → Down m → Still m (on_timer timer m)
timer-Still none m d = as_it_was m d
timer-Still (some delay) m d = rw (reconnect-ended (clear_reconnect_timer m) d.is_ended) (record {
  down = record { no_entry = d.no_entry; is_ended = d.is_ended; gives_up = d.gives_up };
  unmade = refl;
})

without_flight : (m : Manager) → Down m → Down (record m { in_flight = none })
without_flight m d = record {
  no_entry = d.no_entry;
  is_ended = d.is_ended;
  gives_up = λ h. absurd (cc h);
}

awaited-Still :
    (setup : Setup) (ok : Bool) (caller : Option Caller) (m : Manager)
    → m.in_flight ≡ caller
    → Down m
    → Still m (on_awaited setup ok caller m)
awaited-Still setup ok none m e d = as_it_was m d
awaited-Still setup true (some caller) m e d =
    let gives : is_closed m.ended ≡ true = d.gives_up (ap is_some e) in
    let stops : (m.exiting || is_closed m.ended) ≡ true = ground (arith, gives) in
    rw stops (record { down = without_flight m d; unmade = refl })
awaited-Still setup false (some asked) m e d = record { down = without_flight m d; unmade = refl }
awaited-Still setup false (some retried) m e d =
    let next = schedule-Still setup none (record m { in_flight = none }) (without_flight m d) in
    record { down = next.down; unmade = next.unmade }

step-Still :
    (setup : Setup) (m : Manager) (e : Event)
    → leaves_it e ≡ true
    → Down m
    → Still m (step setup m e)
unfolding step on_update on_logged_out
step-Still setup m connects c d = absurd (cc c)
step-Still setup m forgets c d = absurd (cc c)
step-Still setup m disconnects c d = record {
  down = record { no_entry = d.no_entry; is_ended = refl; gives_up = λ h. refl };
  unmade = refl;
}
step-Still setup m closes_connection c d = record {
  down = record { no_entry = refl; is_ended = refl; gives_up = λ h. refl };
  unmade = refl;
}
step-Still setup m exits c d = elim (Bool-cases (is_some m.timer)) [
  | inl pending ↦ rw pending (record {
    down = record { no_entry = refl; is_ended = d.is_ended; gives_up = d.gives_up };
    unmade = refl;
  })
  | inr idle_ ↦ rw idle_ (record {
    down = record { no_entry = refl; is_ended = d.is_ended; gives_up = d.gives_up };
    unmade = refl;
  })
]
step-Still setup m clears c d = record {
  down = record { no_entry = refl; is_ended = d.is_ended; gives_up = d.gives_up };
  unmade = refl;
}
step-Still setup m cleared c d = record {
  down = record { no_entry = d.no_entry; is_ended = d.is_ended; gives_up = d.gives_up };
  unmade = refl;
}
step-Still setup m ensures c d = rw (ensure_connected-ended setup m d.is_ended) (as_it_was m d)
step-Still setup m fires c d = timer-Still m.timer m d
step-Still setup m registers c d = record {
  down = record { no_entry = d.no_entry; is_ended = d.is_ended; gives_up = d.gives_up };
  unmade = refl;
}
step-Still setup m (awaited ok) c d = awaited-Still setup ok m.in_flight m refl d
step-Still setup m (updated s u) c d = elim (Bool-cases (any (λ other. other == s) m.live)) [
  | inl there ↦
      rw (there, d.no_entry)
        (record {
          down = record { no_entry = refl; is_ended = d.is_ended; gives_up = d.gives_up };
          unmade = refl;
        })
  | inr stale ↦ rw stale (as_it_was m d)
]
step-Still setup m (logged_out s) c d = elim (Bool-cases (any (λ other. other == s) m.leaving)) [
  | inl there ↦ rw there (record {
    down = record { no_entry = refl; is_ended = d.is_ended; gives_up = d.gives_up };
    unmade = refl;
  })
  | inr other ↦ rw other (as_it_was m d)
]

-- The sockets that a run makes: none, so long as nobody asks for one.
abbrev pub AllLeaveIt : List Event → Type 0
AllLeaveIt es = All (λ e. leaves_it e ≡ true) es

-- An account whose connection ended, because WhatsApp ended the session or somebody closed it, opens no socket,
-- whatever timers, health checks, late answers and news of old sockets come, until a connect is asked for or
-- the account is removed. No socket is open at first, and a connect still in flight was there when it was closed.
pub run-Down :
    (setup : Setup) (m : Manager) (es : List Event)
    → AllLeaveIt es
    → Down m
    → ((run setup m es).made ≡ m.made) × Down (run setup m es)
unfolding run
run-Down setup m [] c d = (refl, d)
run-Down setup m (e ∷ es) (c, cs) d =
    let next = step-Still setup m e c d in
    let (unmade, down) = run-Down setup (step setup m e) es cs next.down in
    (unmade ∙ next.unmade, down)
