-- ===== src/Sockets/Kept.antt =====
-- integrations/whatsapp/baileys/baileys-socket.manager.ts: an account that lost its connection gets another.
use messaging_gateway.Prelude.{
  ℕ, Option, none, some, Bool, true, false, not, ◌||◌, List, [], ◌∷◌, ◌==◌, ◌≡◌, refl, ap, ◌∙◌, sym,
  is_some, any, arith, All, Bool-cases, Option-cases, inl, inr, if-case,
}
use messaging_gateway.Sockets.{
  Entry, Caller, asked, retried, Manager, Setup, schedule_reconnect, connect, on_awaited, reconnect,
  ensure_connected, on_timer, should_reconnect, on_current, Change, no_change, opens, closes,
  Update, at_entry, on_update, is_closed, Event, connects, disconnects, closes_connection, exits,
  clears, cleared, ensures, fires, registers, forgets, awaited, updated, logged_out, step, run,
  clear_reconnect_timer, is_current, gone, session_lost_code, with_qr, at_entry,
}
use messaging_gateway.Sockets.Updates.{with_qr-socket, arrived}
use messaging_gateway.Sockets.One.{calm, step-Single}
use messaging_gateway.Sockets.Single.{Single, none-Known}

-- The process is not exiting, the session is not being cleared and the connection has not ended.
pub record Healthy (m : Manager) : Type 0 where
  pub stays : m.exiting ≡ false
  pub kept : m.clearing ≡ false
  pub lives : m.ended ≡ none

-- The account's socket is open, or a retry is due, or one is in flight.
pub data Covered (m : Manager) : Type 0 where
  is_open : (e : Entry) → m.entry ≡ some e → m.live ≡ e.socket ∷ [] → Covered m
  waits : is_some m.timer ≡ true → Covered m
  flies : m.in_flight ≡ some retried → Covered m

-- What the network and time bring: updates but for the end of the session, timers, awaits that end.
abbrev pub loses : Change → Bool
loses (closes code) = session_lost_code code
loses _ = false

abbrev pub passing : Event → Bool
passing (updated s u) = not (loses u.change)
passing (awaited ok) = true
passing fires = true
passing ensures = true
passing registers = true
passing _ = false

record Fine (m : Manager) : Type 0 where
  healthy : Healthy m
  covered : Covered m

reconnect-Fine : (m : Manager) → Healthy m → m.in_flight ≡ none → Fine (reconnect m)
unfolding reconnect connect
reconnect-Fine m h f =
    let go : (m.clearing || is_some m.ended) ≡ false = ground (arith, h.kept, ap is_some h.lives) in
    let on : (m.exiting || m.clearing) ≡ false = ground (arith, h.kept, h.stays) in
    rw (go, on, ap is_some f)
      (record {
        healthy = record { stays = h.stays; kept = h.kept; lives = refl };
        covered = flies refl;
      })

schedule-Fine :
    (setup : Setup) (code : Option ℕ) (m : Manager)
    → Healthy m
    → Fine (schedule_reconnect setup code m)
unfolding schedule_reconnect
schedule-Fine setup code m h = elim (Bool-cases (is_some m.timer)) [
  | inl there ↦ rw there (record { healthy = h; covered = waits there })
  | inr new ↦ rw new (record {
    healthy = record { stays = h.stays; kept = h.kept; lives = h.lives };
    covered = waits refl;
  })
]

timer-Fine :
    (timer : Option ℕ) (m : Manager) → m.timer ≡ timer → Single m → Fine m → Fine (on_timer timer m)
timer-Fine none m e w h = h
timer-Fine (some delay) m e w h =
    let idle_ : m.in_flight ≡ none = elim (Option-cases m.in_flight) [
      | inl none_ ↦ none_
      | inr (caller, flying) ↦ absurd (cc (sym e ∙ (w.flight (ap is_some flying)).1))
    ] in
    reconnect-Fine (clear_reconnect_timer m)
      (record { stays = h.healthy.stays; kept = h.healthy.kept; lives = h.healthy.lives }) idle_

ensures-Fine : (setup : Setup) (m : Manager) → Fine m → Fine (ensure_connected setup m)
unfolding ensure_connected
ensures-Fine setup m h =
    if-case Fine _ (λ covered. h)
      (λ open_.
        let idle_ : m.in_flight ≡ none = ground (arith, open_) in reconnect-Fine m h.healthy idle_)

awaited-Fine :
    (setup : Setup) (ok : Bool) (caller : Option Caller) (m : Manager)
    → m.in_flight ≡ caller
    → Single m
    → Fine m
    → Fine (on_awaited setup ok caller m)
awaited-Fine setup ok none m e w h = h
awaited-Fine setup ok (some asked) m e w h =
    let (no_entry, no_timer) = w.flight (ap is_some e) in
    elim h.covered [
      | is_open d there _ ↦ absurd (cc (sym there ∙ no_entry))
      | waits due ↦ absurd (cc (sym due ∙ ap is_some no_timer))
      | flies it ↦ absurd (cc (sym e ∙ it))
    ]
awaited-Fine setup true (some retried) m e w h =
    let (no_entry, _) = w.flight (ap is_some e) in
    let quiet = none-Known m.live (rw no_entry at w.known) in
    let on : (m.exiting || is_closed m.ended) ≡ false =
      ground (arith, h.healthy.stays, ap is_closed h.healthy.lives) in
    rw on (record {
      healthy = record { stays = h.healthy.stays; kept = h.healthy.kept; lives = h.healthy.lives };
      covered = is_open _ refl (ap (λ live. m.made ∷ live) quiet);
    })
awaited-Fine setup false (some retried) m e w h =
    schedule-Fine setup none (record m { in_flight = none })
      (record { stays = h.healthy.stays; kept = h.healthy.kept; lives = h.healthy.lives })

-- The update of the entry's socket: after a close a retry is due, if the session is not lost.
renewed :
    (d e : Entry) (m : Manager)
    → m.entry ≡ some e
    → d.socket ≡ e.socket
    → Fine m
    → Fine (record m { entry = some d })
renewed d e m there same h = record {
  healthy = record { stays = h.healthy.stays; kept = h.healthy.kept; lives = h.healthy.lives };
  covered = elim h.covered [
    | is_open c n k ↦
        let it : c.socket ≡ d.socket = ground (arith, same, sym n ∙ there) in
        is_open d refl (k ∙ ap (λ x. x ∷ []) it)
    | waits due ↦ waits due
    | flies it ↦ flies it
  ];
}

current-Fine :
    (setup : Setup) (s : ℕ) (u : Update) (change : Change) (e : Entry) (m : Manager)
    → setup.retry_on_disconnect ≡ true
    → u.change ≡ change
    → loses change ≡ false
    → m.entry ≡ some e
    → Fine m
    → Fine (on_current setup u e (record m { live = gone s change m.live }))
current-Fine setup s u no_change e m r is c there h =
    rw is (renewed (with_qr u.qr e) e m there (with_qr-socket u.qr e) h)
current-Fine setup s u opens e m r is c there h = rw is (renewed _ e m there refl h)
current-Fine setup s u (closes code) e m r is c there h =
    let again : should_reconnect setup code m ≡ true = ground (arith, r, c, h.healthy.kept) in
    rw (is, again)
      (schedule-Fine setup code _
        (record { stays = h.healthy.stays; kept = h.healthy.kept; lives = h.healthy.lives }))

update-Fine :
    (setup : Setup) (s : ℕ) (u : Update) (entry : Option Entry) (m : Manager)
    → setup.retry_on_disconnect ≡ true
    → loses u.change ≡ false
    → m.entry ≡ entry
    → is_current s entry ≡ true
    → Fine m
    → Fine (at_entry setup s u entry (record m { live = gone s u.change m.live }))
update-Fine setup s u none m r c there it h = absurd (cc it)
update-Fine setup s u (some e) m r c there it h =
    rw it (current-Fine setup s u u.change e m r refl c there h)

step-Fine :
    (setup : Setup) (m : Manager) (e : Event)
    → setup.retry_on_disconnect ≡ true
    → passing e ≡ true
    → Single m
    → Fine m
    → Fine (step setup m e)
unfolding step on_update
step-Fine setup m connects r c w h = absurd (cc c)
step-Fine setup m disconnects r c w h = absurd (cc c)
step-Fine setup m closes_connection r c w h = absurd (cc c)
step-Fine setup m exits r c w h = absurd (cc c)
step-Fine setup m clears r c w h = absurd (cc c)
step-Fine setup m cleared r c w h = absurd (cc c)
step-Fine setup m forgets r c w h = absurd (cc c)
step-Fine setup m (logged_out s) r c w h = absurd (cc c)
step-Fine setup m ensures r c w h = ensures-Fine setup m h
step-Fine setup m fires r c w h = timer-Fine m.timer m refl w h
step-Fine setup m registers r c w h = record {
  healthy = record { stays = h.healthy.stays; kept = h.healthy.kept; lives = h.healthy.lives };
  covered = elim h.covered [
    | is_open e n k ↦ is_open e n k
    | waits due ↦ waits due
    | flies it ↦ flies it
  ];
}
step-Fine setup m (awaited ok) r c w h = awaited-Fine setup ok m.in_flight m refl w h
step-Fine setup m (updated s u) r c w h =
    if-case Fine (any (λ other. other == s) m.live)
      (λ arrives.
        let (it, _) = arrived s m.entry m.live w.known arrives in
        let kept_ : loses u.change ≡ false = ground (arith, c) in
        update-Fine setup s u m.entry m r kept_ refl it h)
      (λ stale. h)

abbrev pub AllPassing : List Event → Type 0
AllPassing es = All (λ e. passing e ≡ true) es

passing-calm : (m : Manager) (e : Event) → passing e ≡ true → calm m e ≡ true
passing-calm m connects c = absurd (cc c)
passing-calm m forgets c = absurd (cc c)
passing-calm m disconnects c = refl
passing-calm m closes_connection c = refl
passing-calm m exits c = refl
passing-calm m clears c = refl
passing-calm m cleared c = refl
passing-calm m ensures c = refl
passing-calm m fires c = refl
passing-calm m registers c = refl
passing-calm m (awaited ok) c = refl
passing-calm m (updated s u) c = refl
passing-calm m (logged_out s) c = refl

-- A network that comes and goes never leaves an account without a retry: from a state in which its socket is
-- open, a retry is due or one is in flight, every run of updates, timers, failed and successful connects and
-- health checks leads to such a state again, however often the connection drops, unless WhatsApp ends the session.
-- The account retries, the process is not exiting, the session is not being cleared, and the connection has not
-- ended. At first the entry's socket is the only one that may be open, none is open while a retry is due, a
-- connect in flight has no entry and no timer beside it, and no logout is being waited for: a socket that a
-- disconnect left behind is excluded.
pub run-Covered :
    (setup : Setup) (es : List Event) (m : Manager)
    → setup.retry_on_disconnect ≡ true
    → AllPassing es
    → Single m
    → Healthy m
    → Covered m
    → Covered (run setup m es) × Healthy (run setup m es)
unfolding run
run-Covered setup [] m r c w h k = (k, h)
run-Covered setup (e ∷ es) m r (c, cs) w h k =
    let next = step-Fine setup m e r c w (record { healthy = h; covered = k }) in
    run-Covered setup es (step setup m e) r cs (step-Single setup m e (passing-calm m e c) w)
      next.healthy next.covered
