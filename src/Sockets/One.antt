-- ===== src/Sockets/One.antt =====
-- integrations/whatsapp/baileys/baileys-socket.manager.ts: an account never has two sockets.
use messaging_gateway.Prelude.{
  ℕ, Option, none, some, Bool, true, false, List, [], ◌∷◌, ◌==◌, ◌≡◌, refl, ap, ◌∙◌, sym, is_some,
  any, arith, All, Bool-cases, Option-cases, inl, inr, if-case, ◌⊎◌,
}
use messaging_gateway.Sockets.{
  closed, Entry, asked, Manager, Setup, on_logged_out, Event, connects, disconnects,
  closes_connection, exits, clears, cleared, ensures, fires, registers, forgets, awaited, updated,
  logged_out, step, run, is_current, without, new_manager, disconnect, awaits_logout,
}
use messaging_gateway.Sockets.Single.{
  Known, Grounded, Single, bare-Single, drop_socket-Single, connect-Single, ensures-Single,
  timer-Single,
}
use messaging_gateway.Sockets.Updates.{awaited-Single, on_update-Single}

-- What a logout leaves: it was the entry's socket, or there was no entry any more.
parted :
    (s : ℕ) (entry : Option Entry) (live leaving : List ℕ)
    → Known entry live
    → All (λ x. (entry ≡ none) ⊎ (is_current x entry ≡ true)) leaving
    → any (λ other. other == s) leaving ≡ true
    → without s live ≡ []
unfolding without
parted s entry live [] k p h = absurd (cc h)
parted s entry live (x ∷ leaving) k (q, p) h = elim (Bool-cases (x == s)) [
  | inr other ↦ parted s entry live leaving k p (rw other at h)
  | inl here ↦ elim k [
    | inl quiet ↦ rw quiet refl
    | inr (e, n, l) ↦ elim q [
      | inl gone_ ↦ absurd (cc (sym n ∙ gone_))
      | inr it ↦
          let same : (e.socket == s) ≡ true = ground (arith, here, rw n at it) in
          rw l (ground (arith, same))
    ]
  ]
]

logged_out-Single : (s : ℕ) (m : Manager) → Single m → Single (on_logged_out s m)
unfolding on_logged_out
logged_out-Single s m w =
    if-case Single (any (λ other. other == s) m.leaving)
      (λ leaves.
        bare-Single _ refl (parted s m.entry m.live m.leaving w.known w.parting leaves)
          (λ h. (w.flight h).1)
          (elim w.grounded [
            | inl none_leaves ↦ absurd (cc (rw none_leaves at leaves))
            | inr down ↦ inr down
          ]))
      (λ other. w)

joined_parted :
    (now entry : Option Entry) (leaving : List ℕ)
    → now ≡ entry
    → All (λ s. (now ≡ none) ⊎ (is_current s now ≡ true)) leaving
    → All (λ s. (now ≡ none) ⊎ (is_current s now ≡ true)) (awaits_logout entry leaving)
joined_parted now none leaving e p = p
joined_parted now (some d) leaving e p =
    (inr (rw e (let it : (d.socket == d.socket) ≡ true = ground arith in it)), p)

joined-Grounded :
    (entry : Option Entry) (m : Manager)
    → m.entry ≡ entry
    → Single m
    → Grounded (awaits_logout entry m.leaving) (some closed) m.in_flight
joined-Grounded none m e w = elim w.grounded [
  | inl none_leaves ↦ inl none_leaves
  | inr (_, idle_) ↦ inr (refl, idle_)
]
joined-Grounded (some d) m e w = inr (
  refl,
  elim (Option-cases m.in_flight) [
    | inl idle_ ↦ idle_
    | inr (caller, flying) ↦ absurd (cc (sym e ∙ (w.flight (ap is_some flying)).0))
  ],
)

disconnect-Single : (m : Manager) → Single m → Single (disconnect m)
disconnect-Single m w = record {
  known = w.known;
  flight = λ h. ((w.flight h).0, refl);
  pausing = λ h. absurd (cc h);
  parting = joined_parted m.entry m.entry m.leaving refl w.parting;
  grounded = joined-Grounded m.entry m refl w;
}

-- An ended account is as well grounded as before.
ended-Grounded : (m : Manager) → Single m → Grounded m.leaving (some closed) m.in_flight
ended-Grounded m w = elim w.grounded [
  | inl none_leaves ↦ inl none_leaves
  | inr (_, idle_) ↦ inr (refl, idle_)
]

-- While a `disconnect` awaits its logout, nobody asks for a connect and the account is not removed.
abbrev pub unparted : List ℕ → Bool
unparted [] = true
unparted (s ∷ leaving) = false

abbrev pub calm : Manager → Event → Bool
calm m connects = unparted m.leaving
calm m forgets = unparted m.leaving
calm m _ = true

none_parted : (leaving : List ℕ) → unparted leaving ≡ true → leaving ≡ []
none_parted [] h = refl
none_parted (s ∷ leaving) h = absurd (cc h)

pub step-Single :
    (setup : Setup) (m : Manager) (e : Event) → calm m e ≡ true → Single m → Single (step setup m e)
unfolding step
step-Single setup m connects c w = connect-Single asked m (none_parted m.leaving c) w
step-Single setup m disconnects c w = disconnect-Single m w
step-Single setup m closes_connection c w =
    drop_socket-Single _ w.known (λ h. refl) (ended-Grounded m w)
step-Single setup m exits c w = elim (Bool-cases (is_some m.timer)) [
  | inl pending ↦ rw pending (drop_socket-Single _ w.known (λ h. refl) w.grounded)
  | inr idle_ ↦ rw idle_ (drop_socket-Single _ w.known (λ h. (w.flight h).1) w.grounded)
]
step-Single setup m clears c w = drop_socket-Single _ w.known (λ h. refl) w.grounded
step-Single setup m cleared c w = record {
  known = w.known;
  flight = w.flight;
  pausing = w.pausing;
  parting = w.parting;
  grounded = w.grounded;
}
step-Single setup m ensures c w = ensures-Single setup m w
step-Single setup m fires c w = timer-Single m.timer m refl w
step-Single setup m registers c w = record {
  known = w.known;
  flight = w.flight;
  pausing = w.pausing;
  parting = w.parting;
  grounded = w.grounded;
}
step-Single setup m forgets c w =
    if-case Single (is_some m.in_flight) (λ flying. w)
      (λ idle_. record {
        known = w.known;
        flight = w.flight;
        pausing = w.pausing;
        parting = w.parting;
        grounded = inl (none_parted m.leaving c);
      })
step-Single setup m (awaited ok) c w = awaited-Single setup ok m.in_flight m refl w
step-Single setup m (updated s u) c w = on_update-Single setup s u m w
step-Single setup m (logged_out s) c w = logged_out-Single s m w

abbrev pub Calm : Setup → Manager → List Event → Type 0
Calm setup m [] = Unit
Calm setup m (e ∷ es) = (calm m e ≡ true) × Calm setup (step setup m e) es

from-Single :
    (setup : Setup) (es : List Event) (m : Manager)
    → Calm setup m es
    → Single m
    → Single (run setup m es)
unfolding run
from-Single setup [] m c w = w
from-Single setup (e ∷ es) m (c, cs) w =
    from-Single setup es (step setup m e) cs (step-Single setup m e c w)

-- An account never has two sockets open, nor one that the manager does not know, and while a retry is due none
-- is open: whatever connects, closes, timers, health checks, session resets and late answers come in any order.
-- Only while a `disconnect` awaits its logout no connect is asked for and the account is not removed. The
-- account starts without a socket.
pub run-Single :
    (setup : Setup) (es : List Event)
    → Calm setup new_manager es
    → Single (run setup new_manager es)
run-Single setup es c =
    from-Single setup es new_manager c (bare-Single new_manager refl refl (λ h. refl) (inl refl))
