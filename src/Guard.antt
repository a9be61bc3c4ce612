-- ===== src/Guard.antt =====
-- core/inbound/store-guard.ts: the circuit breaker between the inbound messages and the message
-- log. The code awaits the store, its probe and its timers, so the model is a system of the guard
-- and the calls in flight, and an event is what ends one of these waits. Any order of events is a
-- run; a message that waits to retry may wake at any time, which covers its timer and `wakeRetries`.
pub mod Circuit
pub mod Attempts
pub mod Tries
pub mod Diverted
pub mod Retried
mod Tests
use messaging_gateway.Prelude.{
  ℕ, zero, suc, ◌+◌, String, Option, none, some, Bool, true, false, not, List, [], ◌∷◌, ◌++◌,
  if◌then◌else◌, str_eq, get_elem?, set, length,
}
use messaging_gateway.Store.{InsertResult, inserted, duplicate}

-- What the store rejects with: `PermanentStoreError`, `RangeError`, or anything else.
pub data Failure : Type 0 where
  permanent range other : String → Failure

pub data Phase : Type 0 where
  down recovering : Phase

pub record Diversion : Type 0 where
  pub phase : Phase
  pub cause : Failure

-- The probe's timer, or the probe that it has started.
pub data Probe : Type 0 where
  idle scheduled running : Probe

pub record Guard : Type 0 where
  pub diversion : Option Diversion
  pub probe : Probe
  pub stopped : Bool

abbrev pub new_guard : Guard
new_guard = record { diversion = none; probe = idle; stopped = false }

abbrev pub persist_retry_delays_ms : List ℕ
persist_retry_delays_ms = 1000 ∷ 2000 ∷ 4000 ∷ 8000 ∷ 16000 ∷ []

-- `isPermanentFailure`, of a live message.
abbrev pub is_permanent_failure : Failure → Bool
is_permanent_failure (permanent m) = true
is_permanent_failure (range m) = true
is_permanent_failure (other m) = false

abbrev pub is_down : Option Diversion → Bool
is_down none = false
is_down (some d) = elim d.phase [ down ↦ true | recovering ↦ false ]

abbrev pub is_recovering : Option Diversion → Bool
is_recovering none = false
is_recovering (some d) = elim d.phase [ down ↦ false | recovering ↦ true ]

-- The getters `recovering` and `takingDirectly`.
unfoldable pub recovering_now : Guard → Bool
recovering_now g = if g.stopped then false else is_recovering g.diversion

unfoldable pub taking_directly : Guard → Bool
taking_directly g = if g.stopped then false else elim g.diversion [ none ↦ true | some d ↦ false ]

unfoldable pub open_circuit : Guard → Failure → Guard
open_circuit g cause =
    if is_down g.diversion
    then g
    else if g.stopped
    then g
    else record g { diversion = some (record { phase = down; cause = cause }); probe = scheduled }

unfoldable pub finish_recovery : Guard → Guard
finish_recovery g = if recovering_now g then record g { diversion = none } else g

unfoldable pub stop : Guard → Guard
stop g = record g {
  stopped = true;
  probe = elim g.probe [ scheduled ↦ idle | running ↦ running | idle ↦ idle ];
}

-- The timer of the probe fires, and the probe is sent if the circuit is still open.
unfoldable pub probe_starts : Guard → Guard
probe_starts g = elim g.probe [
  | scheduled ↦ record g { probe = if is_down g.diversion then running else idle }
  | _ ↦ g
]

-- The probe has written, or has failed.
unfoldable pub probe_ends : Guard → Bool → Guard
probe_ends g wrote = elim g.probe [
  | running ↦
      if wrote
      then if g.stopped then record g { probe = idle } else record g {
        diversion = some (record {
          phase = recovering;
          cause = other "the message log is taking the failed log first";
        });
        probe = idle;
      }
      else record g { probe = if g.stopped then idle else scheduled }
  | _ ↦ g
]

-- Where a call of `insert` or of `insertOnce` stands; a live call carries its attempt number.
pub data Stage : Type 0 where
  calling waiting : ℕ → Stage
  calling_once : Stage
  confirming : Failure → Stage
  stored : InsertResult → Stage
  rejected : Failure → Stage

pub record Flight : Type 0 where
  pub envelope_id : String
  pub stage : Stage

pub data Answer : Type 0 where
  resolves : InsertResult → Answer
  rejects : Failure → Answer

pub record System : Type 0 where
  pub guard : Guard
  pub flights : List Flight

-- `settleRetried`: a duplicate that is the envelope itself is an earlier attempt that went through.
unfoldable pub settle_retried : String → InsertResult → InsertResult
settle_retried id (inserted seq number) = inserted seq number
settle_retried id (duplicate stored_id seq number) =
    if str_eq stored_id id then inserted seq number else duplicate stored_id seq number

-- The top of the loop of `insert`.
unfoldable pub begin_attempt : Guard → ℕ → Stage
begin_attempt g attempt = elim g.diversion [ none ↦ calling attempt | some d ↦ rejected d.cause ]

abbrev settle_first : String → ℕ → InsertResult → InsertResult
settle_first id zero result = result
settle_first id (suc n) result = settle_retried id result

-- The rest of the loop's body, from the store's answer on.
unfoldable pub end_attempt : List ℕ → Guard → String → ℕ → Answer → Guard × Stage
end_attempt delays g id attempt (resolves result) = (g, stored (settle_first id attempt result))
end_attempt delays g id attempt (rejects e) =
    if is_permanent_failure e then (g, rejected e) else elim (get_elem? delays attempt) [
      | none ↦ (open_circuit g e, rejected e)
      | some delay ↦ if g.stopped then (g, rejected e) else (g, waiting (attempt + 1))
    ]

abbrev once_by_phase : Phase → Failure → Stage
once_by_phase down cause = rejected cause
once_by_phase recovering cause = calling_once

abbrev once_with : Option Diversion → Stage
once_with none = calling_once
once_with (some d) = once_by_phase d.phase d.cause

-- The head of `insertOnce`.
unfoldable pub begin_once : Guard → Stage
begin_once g = if g.stopped then rejected (other "shutting down") else once_with g.diversion

unfoldable pub end_once : Answer → Stage
end_once (resolves result) = stored result
end_once (rejects (permanent m)) = rejected (permanent m)
end_once (rejects (range m)) = confirming (range m)
end_once (rejects (other m)) = confirming (other m)

pub data Event : Type 0 where
  submit submit_once : String → Event
  answer : ℕ → Answer → Event
  wake : ℕ → Event
  confirmed : ℕ → Bool → Event
  probe_timer : Event
  probe_answer : Bool → Event
  recovered shut_down : Event

abbrev land : System → ℕ → String → Guard → Stage → System
land s i id g stage = record {
  guard = g;
  flights = set s.flights i (record { envelope_id = id; stage = stage });
}

on_answer : List ℕ → System → ℕ → Answer → String → Stage → System
on_answer delays s i a id (calling attempt) =
    let (g, stage) = end_attempt delays s.guard id attempt a in land s i id g stage
on_answer delays s i a id calling_once = land s i id s.guard (end_once a)
on_answer delays s i a id _ = s

on_wake : System → ℕ → String → Stage → System
on_wake s i id (waiting attempt) = land s i id s.guard (begin_attempt s.guard attempt)
on_wake s i id _ = s

-- The probe that `insertOnce` makes after a failure: one that fails too opens the circuit.
on_confirmed : System → ℕ → Bool → String → Stage → System
on_confirmed s i wrote id (confirming e) =
    land s i id (if wrote then s.guard else open_circuit s.guard e) (rejected e)
on_confirmed s i wrote id _ = s

abbrev at : System → ℕ → (String → Stage → System) → System
at s i k = elim (get_elem? s.flights i) [ none ↦ s | some f ↦ k f.envelope_id f.stage ]

unfoldable pub step : List ℕ → System → Event → System
unfolding on_answer on_wake on_confirmed
step delays s (submit id) = record s {
  flights = s.flights ++ (record { envelope_id = id; stage = begin_attempt s.guard 0 }) ∷ [];
}
step delays s (submit_once id) = record s {
  flights = s.flights ++ (record { envelope_id = id; stage = begin_once s.guard }) ∷ [];
}
step delays s (answer i a) = at s i (on_answer delays s i a)
step delays s (wake i) = at s i (on_wake s i)
step delays s (confirmed i wrote) = at s i (on_confirmed s i wrote)
step delays s probe_timer = record s { guard = probe_starts s.guard }
step delays s (probe_answer wrote) = record s { guard = probe_ends s.guard wrote }
step delays s recovered = record s { guard = finish_recovery s.guard }
step delays s shut_down = record s { guard = stop s.guard }

unfoldable pub run : List ℕ → System → List Event → System
run delays s [] = s
run delays s (e ∷ es) = run delays (step delays s e) es

abbrev pub start : System
start = record { guard = new_guard; flights = [] }
