-- ===== src/Guard/Tests.antt =====
-- The store guard in concrete runs.

use messaging_gateway.Prelude.{◌≤◌, ◌+◌, length, none, some, true, false, List, [], ◌∷◌, ◌≡◌, refl}
use messaging_gateway.Samples.{message_of}
use messaging_gateway.Store.{Db, insert_inbound}
use messaging_gateway.Messages.Format.{clean_text, wa_message_id_of}
use messaging_gateway.Store.Dedupe.{Plain}
use messaging_gateway.Store.Rows.{WellFormed}
use messaging_gateway.Guard.{
  begin_attempt, end_attempt, step, Event, submit, answer, wake, probe_timer, probe_answer,
  recovered, rejects, resolves, Failure, permanent, other, System, step, run, start, calling,
  rejected, persist_retry_delays_ms, Stage,
}
use messaging_gateway.Guard.Circuit.{Watched, Moves, circuit, run-Watched, run-Moves}
use messaging_gateway.Guard.Tries.{attempts_of, attempts_of_le}
use messaging_gateway.Guard.Retried.{settle, settle_retried-insert_inbound}

-- A message whose two attempts fail, and the probe that follows.
abbrev events : List Event
events =
    submit "msg_1"
    ∷ answer 0 (rejects (other "busy"))
    ∷ wake 0
    ∷ answer 0 (rejects (other "busy"))
    ∷ probe_timer
    ∷ []

run-Watched_example : Watched (run (1000 ∷ []) start events).guard
run-Watched_example = run-Watched (1000 ∷ []) events

run-Moves_example :
    Moves (probe_answer true) (circuit (run (1000 ∷ []) start events).guard.diversion) (
      circuit (step (1000 ∷ []) (run (1000 ∷ []) start events) (probe_answer true)).guard.diversion)
run-Moves_example = run-Moves (1000 ∷ []) events (probe_answer true)

attempts_made : attempts_of (1000 ∷ []) start events 0 ≡ 2
unfolding attempts_of step begin_attempt end_attempt
attempts_made = refl

attempts_of_le_example :
    attempts_of persist_retry_delays_ms start events 0 ≤ length persist_retry_delays_ms + 1
attempts_of_le_example = attempts_of_le persist_retry_delays_ms events 0

abbrev tripped : System
tripped = record {
  guard = record {
    diversion = some (record { phase = messaging_gateway.Guard.down; cause = other "busy" });
    probe = messaging_gateway.Guard.scheduled;
    stopped = false;
  };
  flights = record { envelope_id = "msg_1"; stage = calling 1 } ∷ [];
}

abbrev no_rows : Db
no_rows = record { messages = []; counters = λ account. 0; seq_counter = 0 }

no_rows-WellFormed : WellFormed no_rows
no_rows-WellFormed = record { fits = tt; distinct = tt }

first-Plain : Plain (message_of "msg_1" "shop" "WA1")
unfolding clean_text wa_message_id_of
first-Plain = ((refl, refl), refl)

settle_retried-insert_inbound_example :
    settle "msg_1"
      (insert_inbound
        (insert_inbound no_rows (message_of "msg_1" "shop" "WA1") none 7).0
        (message_of "msg_1" "shop" "WA1")
        none
        9).1
    ≡ (insert_inbound no_rows (message_of "msg_1" "shop" "WA1") none 7).1
settle_retried-insert_inbound_example =
    settle_retried-insert_inbound no_rows (message_of "msg_1" "shop" "WA1") none 7 9 first-Plain
      no_rows-WellFormed refl
