-- ===== src/Guard/Attempts.antt =====
-- core/inbound/store-guard.ts: the attempt number that a stage carries is one that the delays allow for.
use messaging_gateway.Prelude.{
  ℕ, zero, suc, ◌≤◌, ◌<◌, String, Option, none, some, Bool, List, [], ◌∷◌, ◌≡◌, refl, inl, inr,
  arith, get_elem?, Option-cases, if-elim, length, All, All-append, All-set, All-get_elem?,
}
use messaging_gateway.Guard.{
  Failure, permanent, range, other, Phase, down, recovering, Diversion, Guard, Stage, calling,
  waiting, calling_once, confirming, stored, rejected, Answer, resolves, rejects, System,
  end_attempt, end_once, begin_attempt, begin_once, Event, submit, submit_once, answer, wake,
  confirmed, probe_timer, probe_answer, recovered, shut_down, on_answer, on_wake, on_confirmed,
  step, at, once_with, once_by_phase,
}

-- The attempt that a live message is at, or waits to make, is one that the delays allow for.
abbrev pub Allowed : List ℕ → Stage → Type 0
Allowed delays (calling n) = n ≤ length delays
Allowed delays (waiting n) = n ≤ length delays
Allowed delays _ = Unit {0}

abbrev pub AllAllowed : List ℕ → System → Type 0
AllAllowed delays s = All (λ f. Allowed delays f.stage) s.flights

pub get_elem?-below : (xs : List ℕ) (i : ℕ) {x : ℕ} → get_elem? xs i ≡ some x → i < length xs
get_elem?-below [] i e = cc
get_elem?-below (y ∷ ys) zero e = omega arith
get_elem?-below (y ∷ ys) (suc i) e = omega (arith, get_elem?-below ys i e)

end_attempt-Allowed :
    (delays : List ℕ) (g : Guard) (id : String) (n : ℕ) (a : Answer)
    → Allowed delays (end_attempt delays g id n a).1
unfolding end_attempt
end_attempt-Allowed delays g id n (resolves r) = tt
end_attempt-Allowed delays g id n (rejects (permanent m)) = tt
end_attempt-Allowed delays g id n (rejects (range m)) = tt
end_attempt-Allowed delays g id n (rejects (other m)) = elim (Option-cases (get_elem? delays n)) [
  | inl last ↦ rw last tt
  | inr (d, more) ↦ rw more (
      if-elim (λ (r : Guard × Stage). Allowed delays r.1) g.stopped tt
        (omega (arith, get_elem?-below delays n more)))
]

begin_attempt-Allowed :
    (delays : List ℕ) (d : Option Diversion) (g : Guard) (n : ℕ)
    → g.diversion ≡ d
    → n ≤ length delays
    → Allowed delays (begin_attempt g n)
unfolding begin_attempt
begin_attempt-Allowed delays none g n e h = rw (e, begin_attempt) h
begin_attempt-Allowed delays (some x) g n e h = rw (e, begin_attempt) tt

-- A stage in which the message is not before the store as a live one.
abbrev pub NotLive : Stage → Type 0
NotLive (calling n) = ⊥
NotLive (waiting n) = ⊥
NotLive _ = Unit {0}

Allowed-of_NotLive : (delays : List ℕ) (t : Stage) → NotLive t → Allowed delays t
Allowed-of_NotLive delays (calling n) h = absurd h
Allowed-of_NotLive delays (waiting n) h = absurd h
Allowed-of_NotLive delays calling_once h = tt
Allowed-of_NotLive delays (confirming e) h = tt
Allowed-of_NotLive delays (stored r) h = tt
Allowed-of_NotLive delays (rejected e) h = tt

once_by_phase-NotLive : (p : Phase) (c : Failure) → NotLive (once_by_phase p c)
once_by_phase-NotLive down c = tt
once_by_phase-NotLive recovering c = tt

once_with-NotLive : (d : Option Diversion) → NotLive (once_with d)
once_with-NotLive none = tt
once_with-NotLive (some d) = once_by_phase-NotLive d.phase d.cause

pub begin_once-NotLive : (g : Guard) → NotLive (begin_once g)
unfolding begin_once
begin_once-NotLive g = if-elim NotLive g.stopped tt (once_with-NotLive g.diversion)

pub end_once-NotLive : (a : Answer) → NotLive (end_once a)
unfolding end_once
end_once-NotLive (resolves r) = tt
end_once-NotLive (rejects (permanent m)) = tt
end_once-NotLive (rejects (range m)) = tt
end_once-NotLive (rejects (other m)) = tt

module _ (delays : List ℕ) where
  on_answer-Allowed :
      (s : System) (i : ℕ) (a : Answer) (id : String) (t : Stage)
      → AllAllowed delays s
      → AllAllowed delays (on_answer delays s i a id t)
  unfolding on_answer
  on_answer-Allowed s i a id (calling n) h =
      All-set (λ f. Allowed delays f.stage) s.flights i _ h
        (end_attempt-Allowed delays s.guard id n a)
  on_answer-Allowed s i a id calling_once h =
      All-set (λ f. Allowed delays f.stage) s.flights i _ h
        (Allowed-of_NotLive delays (end_once a) (end_once-NotLive a))
  on_answer-Allowed s i a id _ h = h

  on_wake-Allowed :
      (s : System) (i : ℕ) (id : String) (t : Stage)
      → AllAllowed delays s
      → Allowed delays t
      → AllAllowed delays (on_wake s i id t)
  unfolding on_wake
  on_wake-Allowed s i id (waiting n) h k =
      All-set (λ f. Allowed delays f.stage) s.flights i _ h
        (begin_attempt-Allowed delays s.guard.diversion s.guard n refl k)
  on_wake-Allowed s i id _ h k = h

  on_confirmed-Allowed :
      (s : System) (i : ℕ) (wrote : Bool) (id : String) (t : Stage)
      → AllAllowed delays s
      → AllAllowed delays (on_confirmed s i wrote id t)
  unfolding on_confirmed
  on_confirmed-Allowed s i wrote id (confirming e) h =
      All-set (λ f. Allowed delays f.stage) s.flights i _ h tt
  on_confirmed-Allowed s i wrote id _ h = h

  at-Allowed :
      (s : System) (i : ℕ) (k : String → Stage → System)
      → ((id : String) (t : Stage) → Allowed delays t → AllAllowed delays (k id t))
      → AllAllowed delays s
      → AllAllowed delays (at s i k)
  at-Allowed s i k h all_ = elim (Option-cases (get_elem? s.flights i)) [
    | inl e ↦ rw (e, at) all_
    | inr (f, e) ↦
        rw (e, at)
          (h f.envelope_id f.stage (All-get_elem? (λ f. Allowed delays f.stage) s.flights i all_ e))
  ]

  pub step-Allowed :
      (s : System) (e : Event) → AllAllowed delays s → AllAllowed delays (step delays s e)
  unfolding step
  step-Allowed s (submit id) h =
      All-append (λ f. Allowed delays f.stage) s.flights _ h
        (begin_attempt-Allowed delays s.guard.diversion s.guard 0 refl (omega arith), tt)
  step-Allowed s (submit_once id) h =
      All-append (λ f. Allowed delays f.stage) s.flights _ h
        (Allowed-of_NotLive delays (begin_once s.guard) (begin_once-NotLive s.guard), tt)
  step-Allowed s (answer i a) h =
      at-Allowed s i (on_answer delays s i a) (λ id t k. on_answer-Allowed s i a id t h) h
  step-Allowed s (wake i) h =
      at-Allowed s i (on_wake s i) (λ id t k. on_wake-Allowed s i id t h k) h
  step-Allowed s (confirmed i wrote) h =
      at-Allowed s i (on_confirmed s i wrote) (λ id t k. on_confirmed-Allowed s i wrote id t h) h
  step-Allowed s probe_timer h = h
  step-Allowed s (probe_answer wrote) h = h
  step-Allowed s recovered h = h
  step-Allowed s shut_down h = h
