-- ===== src/Sockets/Updates.antt =====
-- integrations/whatsapp/baileys/baileys-socket.manager.ts: a connect that lands and a socket's updates keep to one socket.
use messaging_gateway.Prelude.{
  ℕ, String, Option, none, some, Bool, true, false, ◌||◌, List, [], ◌∷◌, ◌==◌, ◌≡◌, refl, ap, ◌∙◌,
  sym, is_some, any, arith, All, Option-cases, inl, inr, if-case, ◌⊎◌,
}
use messaging_gateway.Sockets.{
  ConnectionEnd, Entry, Caller, asked, retried, Manager, Setup, on_awaited, after_close,
  should_reconnect, on_current, Change, no_change, opens, closes, Update, at_entry, on_update,
  is_closed, is_current, without, gone, attempts_after, lost_end, session_lost_code, disconnected,
  with_qr, at_entry,
}
use messaging_gateway.Sockets.Single.{Known, Single, none-Known, bare-Single, schedule-Single}

pub awaited-Single :
    (setup : Setup) (ok : Bool) (caller : Option Caller) (m : Manager)
    → m.in_flight ≡ caller
    → Single m
    → Single (on_awaited setup ok caller m)
awaited-Single setup ok none m e w = w
awaited-Single setup ok (some caller) m e w =
    let (no_entry, no_timer) = w.flight (ap is_some e) in
    let quiet = none-Known m.live (rw no_entry at w.known) in
    let none_leaves : m.leaving ≡ [] = elim w.grounded [
      | inl l ↦ l
      | inr (_, idle_) ↦ absurd (cc (ap is_some (sym e ∙ idle_)))
    ] in
    let bare =
      bare-Single (record m { in_flight = none }) no_entry quiet (λ h. absurd (cc h))
        (inl none_leaves) in
    landed setup ok caller m no_timer quiet none_leaves bare
  where
    landed :
        (setup : Setup) (ok : Bool) (caller : Caller) (m : Manager)
        → m.timer ≡ none
        → m.live ≡ []
        → m.leaving ≡ []
        → Single (record m { in_flight = none })
        → Single (on_awaited setup ok (some caller) m)
    landed setup true caller m t l none_leaves bare =
        if-case Single (m.exiting || is_closed m.ended) (λ stops. bare)
          (λ goes_on. record {
            known = inr (_, refl, ap (λ live. m.made ∷ live) l);
            flight = λ h. absurd (cc h);
            pausing = λ h. absurd (cc (h, ap is_some t));
            parting = rw none_leaves tt;
            grounded = inl none_leaves;
          })
    landed setup false asked m t l none_leaves bare = bare
    landed setup false retried m t l none_leaves bare =
        schedule-Single setup none (record m { in_flight = none }) l refl bare

moved_parted :
    (leaving : List ℕ) (entry : Option Entry) (d e : Entry)
    → entry ≡ some e
    → d.socket ≡ e.socket
    → All (λ s. (entry ≡ none) ⊎ (is_current s entry ≡ true)) leaving
    → All (λ s. (some d ≡ none) ⊎ ((d.socket == s) ≡ true)) leaving
moved_parted [] entry d e there same h = tt
moved_parted (s ∷ leaving) entry d e there same (p, h) = (
  elim p [
    | inl gone_ ↦ absurd (cc (sym there ∙ gone_))
    | inr it ↦ inr (ground (arith, same, rw there at it))
  ],
  moved_parted leaving entry d e there same h,
)

lost_end-ended :
    (lost : Bool) (ended : Option ConnectionEnd)
    → is_some ended ≡ true
    → is_some (lost_end lost ended) ≡ true
lost_end-ended true none h = refl
lost_end-ended true (some end_) h = h
lost_end-ended false ended h = h

pub with_qr-socket : (qr : Option String) (e : Entry) → (with_qr qr e).socket ≡ e.socket
with_qr-socket none e = refl
with_qr-socket (some qr) e = refl

-- The update of the entry's socket, whose events arrive no more after a close.
module _ (setup : Setup) (u : Update) (e : Entry) (m : Manager) (there : m.entry ≡ some e)
    (w : Single m) where
  grounded_here : m.in_flight ≡ none
  grounded_here = elim (Option-cases m.in_flight) [
    | inl idle_ ↦ idle_
    | inr (caller, flying) ↦ absurd (cc (sym there ∙ (w.flight (ap is_some flying)).0))
  ]

  -- The entry is another, of the same socket.
  kept-Single :
      (d : Entry) (live : List ℕ) (attempts : ℕ)
      → d.socket ≡ e.socket
      → (live ≡ m.live) ⊎ (live ≡ [])
      → Single (record m { entry = some d; live = live; attempts = attempts })
  kept-Single d live attempts same l = record {
    known = elim l [
      | inr quiet ↦ inl quiet
      | inl as_before ↦ elim w.known [
        | inl quiet ↦ inl (as_before ∙ quiet)
        | inr (c, n, k) ↦
            let it : c.socket ≡ d.socket = ground (arith, same, sym there ∙ n) in
            inr (d, refl, as_before ∙ k ∙ ap (λ x. x ∷ []) it)
      ]
    ];
    flight = λ h. absurd (cc (sym h ∙ ap is_some grounded_here));
    pausing = λ h. elim l [ inl as_before ↦ as_before ∙ w.pausing h | inr quiet ↦ quiet ];
    parting = moved_parted m.leaving m.entry d e there same w.parting;
    grounded = w.grounded;
  }

  closed-Single :
      (again : Bool) (now : ℕ) (code : Option ℕ)
      → Single (after_close again setup now code e (record m { live = [] }))
  closed-Single true now code = schedule-Single setup code _ refl grounded_here (
      kept-Single (record e { connection_status = disconnected; last_qr = none; opened_at = none })
        [] (attempts_after now e.opened_at m.attempts) refl (inr refl))
  closed-Single false now code =
      bare-Single _ refl refl (λ h. refl)
        (elim w.grounded [
          | inl none_leaves ↦ inl none_leaves
          | inr (ended, idle_) ↦ inr (lost_end-ended (session_lost_code code) m.ended ended, idle_)
        ])

  current-Single :
      (s : ℕ) (change : Change)
      → u.change ≡ change
      → without s m.live ≡ []
      → Single (on_current setup u e (record m { live = gone s change m.live }))
  current-Single s no_change is l =
      rw is (kept-Single (with_qr u.qr e) m.live m.attempts (with_qr-socket u.qr e) (inl refl))
  current-Single s opens is l = rw is (kept-Single _ m.live m.attempts refl (inl refl))
  current-Single s (closes code) is l =
      rw is (rw l (closed-Single (should_reconnect setup code m) u.now code))

-- A socket whose events arrive is the entry's, so nothing stays open after its close.
pub arrived :
    (s : ℕ) (entry : Option Entry) (live : List ℕ)
    → Known entry live
    → any (λ other. other == s) live ≡ true
    → (is_current s entry ≡ true) × (without s live ≡ [])
unfolding without
arrived s entry live (inl k) h = absurd (cc (rw k at h))
arrived s entry live (inr (e, n, k)) h =
    let it : (e.socket == s) ≡ true = ground (arith, rw k at h) in
    rw (n, k) (it, ground (arith, it))

update-Single :
    (setup : Setup) (s : ℕ) (u : Update) (entry : Option Entry) (m : Manager)
    → m.entry ≡ entry
    → is_current s entry ≡ true
    → without s m.live ≡ []
    → Single m
    → Single (at_entry setup s u entry (record m { live = gone s u.change m.live }))
update-Single setup s u none m there it l w = absurd (cc it)
update-Single setup s u (some e) m there it l w =
    rw it (current-Single setup u e m there w s u.change refl l)

pub on_update-Single :
    (setup : Setup) (s : ℕ) (u : Update) (m : Manager) → Single m → Single (on_update setup s u m)
unfolding on_update
on_update-Single setup s u m w =
    if-case Single (any (λ other. other == s) m.live)
      (λ arrives.
        let (it, l) = arrived s m.entry m.live w.known arrives in
        update-Single setup s u m.entry m refl it l w)
      (λ stale. w)
