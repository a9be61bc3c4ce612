-- ===== src/Guard/Circuit.antt =====
-- core/inbound/store-guard.ts: the circuit, over every run of the guard.
use messaging_gateway.Prelude.{
  ℕ, String, Option, none, some, Bool, true, false, List, [], ◌∷◌, ◌≡◌, ◌≢◌, refl, inl, inr, arith,
  get_elem?, Option-cases, Bool-cases, if-elim,
}
use messaging_gateway.Guard.{
  Failure, permanent, range, other, down, recovering, Diversion, Probe, idle, scheduled, running,
  Guard, new_guard, is_down, is_recovering, open_circuit, finish_recovery, stop, probe_starts,
  probe_ends, Stage, calling, waiting, calling_once, confirming, Answer, resolves, rejects, System,
  end_attempt, Event, submit, submit_once, answer, wake, confirmed, probe_timer, probe_answer,
  recovered, shut_down, on_answer, on_wake, on_confirmed, step, run, start, at, recovering_now,
}

-- An open circuit is always on its way to be probed, until the shutdown, and nothing else is probed.
pub record Watched (g : Guard) : Type 0 where
  pub open_probed : is_down g.diversion ≡ true → g.stopped ≡ false → g.probe ≢ idle
  pub only_open : g.probe ≢ idle → is_down g.diversion ≡ true
  pub timer_off : g.stopped ≡ true → g.probe ≢ scheduled

open_circuit-Watched : (g : Guard) (e : Failure) → Watched g → Watched (open_circuit g e)
unfolding open_circuit
open_circuit-Watched g e w = ground arith

finish_recovery-Watched : (g : Guard) → Watched g → Watched (finish_recovery g)
unfolding finish_recovery recovering_now
finish_recovery-Watched g w = ground arith

stop-Watched : (g : Guard) → Watched g → Watched (stop g)
unfolding stop
stop-Watched g w = ground arith

probe_starts-Watched : (g : Guard) → Watched g → Watched (probe_starts g)
unfolding probe_starts
probe_starts-Watched g w = ground arith

probe_ends-Watched : (g : Guard) (wrote : Bool) → Watched g → Watched (probe_ends g wrote)
unfolding probe_ends
probe_ends-Watched g wrote w = ground arith

-- What opening the circuit keeps, every call in flight keeps.
module _ (P : Guard → Type 0)
    (opened : (g : Guard) (e : Failure) → P g → P (open_circuit g e)) where
  end_attempt-keeps :
      (delays : List ℕ) (g : Guard) (id : String) (n : ℕ) (a : Answer)
      → P g
      → P (end_attempt delays g id n a).0
  unfolding end_attempt
  end_attempt-keeps delays g id n (resolves r) p = p
  end_attempt-keeps delays g id n (rejects (permanent m)) p = p
  end_attempt-keeps delays g id n (rejects (range m)) p = p
  end_attempt-keeps delays g id n (rejects (other m)) p = elim (Option-cases (get_elem? delays n)) [
    | inl last ↦ rw last (opened g (other m) p)
    | inr (d, more) ↦ rw more (if-elim (λ (r : Guard × Stage). P r.0) g.stopped p p)
  ]

  on_answer-keeps :
      (delays : List ℕ) (s : System) (i : ℕ) (a : Answer) (id : String) (t : Stage)
      → P s.guard
      → P (on_answer delays s i a id t).guard
  unfolding on_answer
  on_answer-keeps delays s i a id (calling n) p = end_attempt-keeps delays s.guard id n a p
  on_answer-keeps delays s i a id calling_once p = p
  on_answer-keeps delays s i a id _ p = p

  on_wake-keeps :
      (s : System) (i : ℕ) (id : String) (t : Stage) → P s.guard → P (on_wake s i id t).guard
  unfolding on_wake
  on_wake-keeps s i id (waiting n) p = p
  on_wake-keeps s i id _ p = p

  on_confirmed-keeps :
      (s : System) (i : ℕ) (wrote : Bool) (id : String) (t : Stage)
      → P s.guard
      → P (on_confirmed s i wrote id t).guard
  unfolding on_confirmed
  on_confirmed-keeps s i true id (confirming e) p = p
  on_confirmed-keeps s i false id (confirming e) p = opened s.guard e p
  on_confirmed-keeps s i wrote id _ p = p

  at-keeps :
      (s : System) (i : ℕ) (k : String → Stage → System)
      → ((id : String) (t : Stage) → P (k id t).guard)
      → P s.guard
      → P (at s i k).guard
  at-keeps s i k h p = elim (Option-cases (get_elem? s.flights i)) [
    | inl e ↦ rw (e, at) p
    | inr (f, e) ↦ rw (e, at) (h f.envelope_id f.stage)
  ]

  -- So do the three events that end a wait of a call in flight.
  pub flight-keeps :
      (delays : List ℕ) (s : System) (i : ℕ) (a : Answer) (wrote : Bool)
      → P s.guard
      → P (step delays s (answer i a)).guard
        × P (step delays s (wake i)).guard
        × P (step delays s (confirmed i wrote)).guard
  unfolding step
  flight-keeps delays s i a wrote p = (
    at-keeps s i (on_answer delays s i a) (λ id t. on_answer-keeps delays s i a id t p) p,
    at-keeps s i (on_wake s i) (λ id t. on_wake-keeps s i id t p) p,
    at-keeps s i (on_confirmed s i wrote) (λ id t. on_confirmed-keeps s i wrote id t p) p,
  )

step-Watched :
    (delays : List ℕ) (s : System) (e : Event) → Watched s.guard → Watched (step delays s e).guard
unfolding step
step-Watched delays s (submit id) w = w
step-Watched delays s (submit_once id) w = w
step-Watched delays s (answer i a) w =
    (flight-keeps Watched open_circuit-Watched delays s i a true w).0
step-Watched delays s (wake i) w =
    (flight-keeps Watched open_circuit-Watched delays s i (rejects (other "")) true w).1
step-Watched delays s (confirmed i wrote) w =
    (flight-keeps Watched open_circuit-Watched delays s i (rejects (other "")) wrote w).2
step-Watched delays s probe_timer w = probe_starts-Watched s.guard w
step-Watched delays s (probe_answer wrote) w = probe_ends-Watched s.guard wrote w
step-Watched delays s recovered w = finish_recovery-Watched s.guard w
step-Watched delays s shut_down w = stop-Watched s.guard w

run-from-Watched :
    (delays : List ℕ) (es : List Event) (s : System)
    → Watched s.guard
    → Watched (run delays s es).guard
unfolding run
run-from-Watched delays [] s w = w
run-from-Watched delays (e ∷ es) s w =
    run-from-Watched delays es (step delays s e) (step-Watched delays s e w)

start-Watched : Watched new_guard
start-Watched = ground arith

-- In every run, an open circuit is being probed or has its probe scheduled until the shutdown, so
-- it cannot stay open unnoticed; nothing is probed while it is not open; and a shutdown leaves no
-- timer behind.
pub run-Watched : (delays : List ℕ) (es : List Event) → Watched (run delays start es).guard
run-Watched delays es = run-from-Watched delays es start start-Watched

-- The three states of the circuit.
pub data Circuit : Type 0 where
  closed opened catching_up : Circuit

abbrev pub circuit : Option Diversion → Circuit
circuit none = closed
circuit (some d) = elim d.phase [ down ↦ opened | recovering ↦ catching_up ]

-- The edges of the circuit's diagram, with the event that each needs.
pub data Moves : Event → Circuit → Circuit → Type 0 where
  stay : {e : Event} {c : Circuit} → Moves e c c
  trips : {e : Event} {c : Circuit} → Moves e c opened
  answers : {e : Event} → e ≡ probe_answer true → Moves e opened catching_up
  closes : {e : Event} → e ≡ recovered → Moves e catching_up closed

open_circuit-Moves :
    (e : Event) (c : Circuit) (g : Guard) (x : Failure)
    → Moves e c (circuit g.diversion)
    → Moves e c (circuit (open_circuit g x).diversion)
unfolding open_circuit
open_circuit-Moves e c g x m = elim (Bool-cases (is_down g.diversion)) [
  | inl d ↦ rw d m
  | inr u ↦ rw u (elim (Bool-cases g.stopped) [ inl on ↦ rw on m | inr off ↦ rw off trips ])
]

circuit_of_down : (d : Option Diversion) → is_down d ≡ true → circuit d ≡ opened
circuit_of_down d h = ground arith

circuit_of_recovering : (d : Option Diversion) → is_recovering d ≡ true → circuit d ≡ catching_up
circuit_of_recovering d h = ground arith

abbrev guard_of : Option Diversion → Probe → Bool → Guard
guard_of d p off = record { diversion = d; probe = p; stopped = off }

probe_ends-Moves :
    (d : Option Diversion) (p : Probe) (off wrote : Bool)
    → Watched (guard_of d p off)
    → Moves
        (probe_answer wrote)
        (circuit d)
        (circuit (probe_ends (guard_of d p off) wrote).diversion)
unfolding probe_ends
probe_ends-Moves d idle off wrote w = stay
probe_ends-Moves d scheduled off wrote w = stay
probe_ends-Moves d running off false w = stay
probe_ends-Moves d running true true w = stay
probe_ends-Moves d running false true w =
    rw (circuit_of_down d (w.only_open (λ e. cc))) (answers refl)

finish_recovery-Moves :
    (g : Guard) → Moves recovered (circuit g.diversion) (circuit (finish_recovery g).diversion)
unfolding finish_recovery recovering_now
finish_recovery-Moves g = elim (Bool-cases g.stopped) [
  | inl off ↦ simp off stay
  | inr on ↦ elim (Bool-cases (is_recovering g.diversion)) [
    | inl r ↦ simp (on, r, circuit_of_recovering g.diversion r) (closes refl)
    | inr n ↦ simp (on, n) stay
  ]
]

probe_starts-Moves :
    (e : Event) (d : Option Diversion) (p : Probe) (off : Bool)
    → Moves e (circuit d) (circuit (probe_starts (guard_of d p off)).diversion)
unfolding probe_starts
probe_starts-Moves e d idle off = stay
probe_starts-Moves e d scheduled off = stay
probe_starts-Moves e d running off = stay

step-Moves :
    (delays : List ℕ) (s : System) (e : Event)
    → Watched s.guard
    → Moves e (circuit s.guard.diversion) (circuit (step delays s e).guard.diversion)
unfolding step stop
step-Moves delays s (submit id) w = stay
step-Moves delays s (submit_once id) w = stay
step-Moves delays s (answer i a) w =
    (flight-keeps (λ g. Moves (answer i a) (circuit s.guard.diversion) (circuit g.diversion))
      (open_circuit-Moves _ _) delays s i a true stay).0
step-Moves delays s (wake i) w =
    (flight-keeps (λ g. Moves (wake i) (circuit s.guard.diversion) (circuit g.diversion))
      (open_circuit-Moves _ _) delays s i (rejects (other "")) true stay).1
step-Moves delays s (confirmed i wrote) w =
    (flight-keeps (λ g. Moves (confirmed i wrote) (circuit s.guard.diversion) (circuit g.diversion))
      (open_circuit-Moves _ _) delays s i (rejects (other "")) wrote stay).2
step-Moves delays s probe_timer w =
    probe_starts-Moves _ s.guard.diversion s.guard.probe s.guard.stopped
step-Moves delays s (probe_answer wrote) w =
    probe_ends-Moves s.guard.diversion s.guard.probe s.guard.stopped wrote w
step-Moves delays s recovered w = finish_recovery-Moves s.guard
step-Moves delays s shut_down w = stay

-- In every run the circuit changes only along its diagram: whatever opens it, it leaves the open
-- state only by a probe that wrote, to the state in which the failed log goes in first, and only
-- the end of that recovery closes it.
pub run-Moves :
    (delays : List ℕ) (es : List Event) (e : Event)
    → let s = run delays start es in
      Moves e (circuit s.guard.diversion) (circuit (step delays s e).guard.diversion)
run-Moves delays es e = step-Moves delays (run delays start es) e (run-Watched delays es)
