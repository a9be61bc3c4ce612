-- ===== src/Sockets/Single.antt =====
-- integrations/whatsapp/baileys/baileys-socket.manager.ts: the one socket of an account, and the retry that is due
-- while it has none.
use messaging_gateway.Prelude.{
  ℕ, Option, none, some, true, ◌||◌, List, [], ◌∷◌, ◌≡◌, refl, ap, is_some, arith, All, inl, inr,
  if-case, ◌⊎◌,
}
use messaging_gateway.Sockets.{
  ConnectionEnd, Entry, Caller, retried, Manager, Setup, schedule_reconnect, connect, reconnect,
  ensure_connected, on_timer, clear_reconnect_timer, is_current, without, close_socket, drop_socket,
}

-- No socket's events arrive, or only those of the entry's.
abbrev pub Known : Option Entry → List ℕ → Type 0
Known entry live = (live ≡ []) ⊎ ((e : Entry) × (entry ≡ some e) × (live ≡ e.socket ∷ []))

-- No `disconnect` awaits its logout, or the account has ended and no connect is in flight.
abbrev pub Grounded : List ℕ → Option ConnectionEnd → Option Caller → Type 0
Grounded leaving ended in_flight = (leaving ≡ []) ⊎ ((is_some ended ≡ true) × (in_flight ≡ none))

-- The account has at most one open socket, and that is the entry's; none is open while a timer is set; a connect
-- in flight has no entry and no timer beside it; and what `disconnect` logs out is the entry, if one is there.
pub record Single (m : Manager) : Type 0 where
  pub known : Known m.entry m.live
  pub flight : is_some m.in_flight ≡ true → (m.entry ≡ none) × (m.timer ≡ none)
  pub pausing : is_some m.timer ≡ true → m.live ≡ []
  pub parting : All (λ s. (m.entry ≡ none) ⊎ (is_current s m.entry ≡ true)) m.leaving
  pub grounded : Grounded m.leaving m.ended m.in_flight

pub none-Known : (live : List ℕ) → Known none live → live ≡ []
none-Known live (inl k) = k
none-Known live (inr (e, n, _)) = absurd (cc n)

pub All-parted :
    (leaving : List ℕ) (entry : Option Entry)
    → entry ≡ none
    → All (λ s. (entry ≡ none) ⊎ (is_current s entry ≡ true)) leaving
All-parted [] entry h = tt
All-parted (s ∷ leaving) entry h = (inl h, All-parted leaving entry h)

-- An account with no entry and no open socket.
pub bare-Single :
    (m : Manager)
    → m.entry ≡ none
    → m.live ≡ []
    → (is_some m.in_flight ≡ true → m.timer ≡ none)
    → Grounded m.leaving m.ended m.in_flight
    → Single m
bare-Single m e l f g = record {
  known = inl l;
  flight = λ h. (e, f h);
  pausing = λ h. l;
  parting = All-parted m.leaving m.entry e;
  grounded = g;
}

pub without_self : (s : ℕ) → without s (s ∷ []) ≡ []
unfolding without
without_self s = ground arith

pub without_nothing : (s : ℕ) → without s [] ≡ []
unfolding without
without_nothing s = refl

-- Closing the entry's socket leaves none open.
pub close_socket-none :
    (entry : Option Entry) (live : List ℕ) → Known entry live → close_socket entry live ≡ []
close_socket-none none live k = none-Known live k
close_socket-none (some e) live (inl k) = rw k (without_nothing e.socket)
close_socket-none (some e) live (inr (d, n, k)) =
    let same : d.socket ≡ e.socket = ground (arith, n) in rw (k, same) (without_self e.socket)

pub drop_socket-Single :
    (m : Manager)
    → Known m.entry m.live
    → (is_some m.in_flight ≡ true → m.timer ≡ none)
    → Grounded m.leaving m.ended m.in_flight
    → Single (drop_socket m)
drop_socket-Single m k f g =
    bare-Single (drop_socket m) refl (close_socket-none m.entry m.live k) f g

-- A connect that goes ahead: with nothing left to log out.
pub connect-Single :
    (caller : Caller) (m : Manager) → m.leaving ≡ [] → Single m → Single (connect caller m)
unfolding connect
connect-Single caller m l w =
    if-case Single (m.exiting || m.clearing) (λ off. w)
      (λ on.
        if-case Single (is_some m.entry) (λ there. w)
          (λ no_entry.
            let free : m.entry ≡ none = ground (arith, no_entry) in
            let quiet : m.live ≡ [] = none-Known m.live (rw free at w.known) in
            if-case Single (is_some m.in_flight)
              (λ flying. bare-Single _ free quiet (λ h. (w.flight h).1) (inl l))
              (λ idle_. bare-Single _ free quiet (λ h. refl) (inl l))))

pub reconnect-Single :
    (m : Manager)
    → m.live ≡ []
    → (is_some m.in_flight ≡ true → m.timer ≡ none)
    → Single m
    → Single (reconnect m)
unfolding reconnect
reconnect-Single m l f w =
    if-case Single (m.clearing || is_some m.ended) (λ held. w)
      (λ free.
        let bare = bare-Single (record m { entry = none }) refl l f w.grounded in
        elim w.grounded [
          | inl none_leaves ↦ connect-Single retried (record m { entry = none }) none_leaves bare
          | inr (ended, _) ↦ absurd (ground (arith, free, ended))
        ])

pub ensures-Single : (setup : Setup) (m : Manager) → Single m → Single (ensure_connected setup m)
unfolding ensure_connected
ensures-Single setup m w =
    if-case Single _ (λ covered. w)
      (λ open_.
        let free : m.entry ≡ none = ground (arith, open_) in
        reconnect-Single m (none-Known m.live (rw free at w.known)) (λ h. (w.flight h).1) w)

pub timer-Single :
    (timer : Option ℕ) (m : Manager) → m.timer ≡ timer → Single m → Single (on_timer timer m)
timer-Single none m e w = w
timer-Single (some delay) m e w =
    let quiet = w.pausing (ap is_some e) in
    reconnect-Single (clear_reconnect_timer m) quiet (λ h. refl)
      (record {
        known = w.known;
        flight = λ h. ((w.flight h).0, refl);
        pausing = λ h. quiet;
        parting = w.parting;
        grounded = w.grounded;
      })

pub schedule-Single :
    (setup : Setup) (code : Option ℕ) (m : Manager)
    → m.live ≡ []
    → m.in_flight ≡ none
    → Single m
    → Single (schedule_reconnect setup code m)
unfolding schedule_reconnect
schedule-Single setup code m l f w =
    if-case Single (is_some m.timer) (λ there. w)
      (λ new. record {
        known = w.known;
        flight = λ h. absurd (cc (h, ap is_some f));
        pausing = λ h. l;
        parting = w.parting;
        grounded = w.grounded;
      })
