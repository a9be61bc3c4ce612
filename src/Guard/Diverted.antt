-- ===== src/Guard/Diverted.antt =====
-- core/inbound/store-guard.ts: what an open circuit and a refused message do to the live messages.
use messaging_gateway.Prelude.{
  inl, inr, ℕ, zero, suc, ◌+◌, ◌≤◌, String, Option, none, some, Bool, true, List, [], ◌∷◌, ◌++◌,
  ◌≡◌, refl, arith, get_elem?, set, Option-cases, if-elim,
}
use messaging_gateway.Guard.{
  Failure, permanent, range, other, Diversion, Guard, is_permanent_failure, Stage, calling, waiting,
  calling_once, confirming, rejected, Flight, Answer, resolves, rejects, System, end_attempt,
  end_once, begin_attempt, begin_once, Event, submit, submit_once, answer, wake, confirmed,
  probe_timer, probe_answer, recovered, shut_down, on_answer, on_wake, on_confirmed, step, at,
  once_with, once_by_phase,
}

abbrev pub weight : Stage → ℕ
weight (calling n) = 1
weight _ = 0

-- How many live messages are before the store.
abbrev pub live_calls : List Flight → ℕ
live_calls [] = 0
live_calls (f ∷ fs) = weight f.stage + live_calls fs

live_calls-append :
    (fs : List Flight) (f : Flight) → weight f.stage ≡ 0 → live_calls (fs ++ f ∷ []) ≤ live_calls fs
live_calls-append [] f h = omega arith
live_calls-append (g ∷ fs) f h = omega (arith, live_calls-append fs f h)

live_calls-set :
    (fs : List Flight) (i : ℕ) (f : Flight)
    → weight f.stage ≡ 0
    → live_calls (set fs i f) ≤ live_calls fs
live_calls-set [] i f h = omega arith
live_calls-set (g ∷ fs) zero f h = omega arith
live_calls-set (g ∷ fs) (suc i) f h = omega (arith, live_calls-set fs i f h)

end_attempt-weight :
    (delays : List ℕ) (g : Guard) (id : String) (n : ℕ) (a : Answer)
    → weight (end_attempt delays g id n a).1 ≡ 0
unfolding end_attempt
end_attempt-weight delays g id n (resolves r) = refl
end_attempt-weight delays g id n (rejects (permanent m)) = refl
end_attempt-weight delays g id n (rejects (range m)) = refl
end_attempt-weight delays g id n (rejects (other m)) = elim (Option-cases (get_elem? delays n)) [
  | inl last ↦ rw last
  | inr (d, more) ↦ rw more (if-elim (λ (r : Guard × Stage). weight r.1 ≡ 0) g.stopped refl refl)
]

begin_attempt-weight :
    (g : Guard) (n : ℕ) {d : Diversion} → g.diversion ≡ some d → weight (begin_attempt g n) ≡ 0
unfolding begin_attempt
begin_attempt-weight g n e = rw (e, begin_attempt)

once_by_phase-weight : (d : Diversion) → weight (once_by_phase d.phase d.cause) ≡ 0
once_by_phase-weight d = ground arith

once_with-weight : (d : Option Diversion) → weight (once_with d) ≡ 0
once_with-weight none = refl
once_with-weight (some d) = once_by_phase-weight d

begin_once-weight : (g : Guard) → weight (begin_once g) ≡ 0
unfolding begin_once
begin_once-weight g = if-elim (λ t. weight t ≡ 0) g.stopped refl (once_with-weight g.diversion)

end_once-weight : (a : Answer) → weight (end_once a) ≡ 0
unfolding end_once
end_once-weight (resolves r) = refl
end_once-weight (rejects (permanent m)) = refl
end_once-weight (rejects (range m)) = refl
end_once-weight (rejects (other m)) = refl

module _ (delays : List ℕ) (s : System) where
  abbrev Fewer : System → Type 0
  Fewer t = live_calls t.flights ≤ live_calls s.flights

  on_answer-Fewer :
      (i : ℕ) (a : Answer) (id : String) (t : Stage) → Fewer (on_answer delays s i a id t)
  unfolding on_answer
  on_answer-Fewer i a id (calling n) =
      live_calls-set s.flights i _ (end_attempt-weight delays s.guard id n a)
  on_answer-Fewer i a id calling_once = live_calls-set s.flights i _ (end_once-weight a)
  on_answer-Fewer i a id _ = omega arith

  on_wake-Fewer :
      (i : ℕ) (id : String) (t : Stage) {d : Diversion}
      → s.guard.diversion ≡ some d
      → Fewer (on_wake s i id t)
  unfolding on_wake
  on_wake-Fewer i id (waiting n) e = live_calls-set s.flights i _ (begin_attempt-weight s.guard n e)
  on_wake-Fewer i id _ e = omega arith

  on_confirmed-Fewer :
      (i : ℕ) (wrote : Bool) (id : String) (t : Stage) → Fewer (on_confirmed s i wrote id t)
  unfolding on_confirmed
  on_confirmed-Fewer i wrote id (confirming e) = live_calls-set s.flights i _ refl
  on_confirmed-Fewer i wrote id _ = omega arith

  at-Fewer :
      (i : ℕ) (k : String → Stage → System)
      → ((id : String) (t : Stage) → Fewer (k id t))
      → Fewer (at s i k)
  at-Fewer i k h = elim (Option-cases (get_elem? s.flights i)) [
    | inl e ↦ rw (e, at) (omega arith)
    | inr (f, e) ↦ rw (e, at) (h f.envelope_id f.stage)
  ]

  -- While the circuit is not closed, be the log down or taking the failed log first, no event
  -- puts a live message before the store.
  pub diverted-live_calls :
      (e : Event) {d : Diversion}
      → s.guard.diversion ≡ some d
      → live_calls (step delays s e).flights ≤ live_calls s.flights
  unfolding step
  diverted-live_calls (submit id) h =
      live_calls-append s.flights _ (begin_attempt-weight s.guard 0 h)
  diverted-live_calls (submit_once id) h = live_calls-append s.flights _ (begin_once-weight s.guard)
  diverted-live_calls (answer i a) h =
      at-Fewer i (on_answer delays s i a) (λ id t. on_answer-Fewer i a id t)
  diverted-live_calls (wake i) h = at-Fewer i (on_wake s i) (λ id t. on_wake-Fewer i id t h)
  diverted-live_calls (confirmed i wrote) h =
      at-Fewer i (on_confirmed s i wrote) (λ id t. on_confirmed-Fewer i wrote id t)
  diverted-live_calls probe_timer h = omega arith
  diverted-live_calls (probe_answer wrote) h = omega arith
  diverted-live_calls recovered h = omega arith
  diverted-live_calls shut_down h = omega arith

-- A live message that fails for what it is changes nothing of the guard and is rejected with that
-- failure, without a second attempt.
pub permanent_failure-rejected :
    (delays : List ℕ) (s : System) (i n : ℕ) (id : String) (e : Failure)
    → get_elem? s.flights i ≡ some (record { envelope_id = id; stage = calling n })
    → is_permanent_failure e ≡ true
    → step delays s (answer i (rejects e))
      ≡ record s { flights = set s.flights i (record { envelope_id = id; stage = rejected e }) }
unfolding step on_answer end_attempt
permanent_failure-rejected delays s i n id (permanent m) there p = rw (there, step, at)
permanent_failure-rejected delays s i n id (range m) there p = rw (there, step, at)
permanent_failure-rejected delays s i n id (other m) there p = cc
