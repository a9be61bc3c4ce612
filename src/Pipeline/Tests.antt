-- ===== src/Pipeline/Tests.antt =====
-- The inbound pipeline at concrete messages.

use messaging_gateway.Messages.{UnifiedEnvelope}
use messaging_gateway.Pipeline.Turns.{
  Turn, handles, starts, settles, cleans, processing, tail_resolved, turn, run_turns, no_turns,
  handle, begins, ends, forgets,
}
use messaging_gateway.Pipeline.Chain.{Over}
use messaging_gateway.Pipeline.InTurn.{starts_lem, run_turns-in_order}
use messaging_gateway.Prelude.{
  ◌++◌, zero, suc, arith, Option, none, some, true, false, List, [], ◌∷◌, ◌≡◌, refl, All, map,
  filter, length, ◌==◌, if◌then◌else◌,
}
use messaging_gateway.Samples.{message_of, account_of}
use messaging_gateway.Guard.{Answer, rejects, resolves, other}
use messaging_gateway.Store.{inserted}
use messaging_gateway.Failed.{Line}
use messaging_gateway.Failed.Replay.{verdicts}
use messaging_gateway.Pipeline.{Moments, Deps, Left, process, drain, accepts, ends_with_lid}
use messaging_gateway.Pipeline.Emission.{Justified, process-Justified, kept_of}
use messaging_gateway.Pipeline.Drained.{drain-kept, must_keep, pending_left}
use messaging_gateway.Pipeline.Replay.{
  Entry, Look, save_entry, replay_rejection, keep, judges_conversations, judge,
}
use messaging_gateway.Pipeline.Order.{NoneOvertakes, replay-NoneOvertakes}

abbrev deps : Deps
deps = record { has_store = true; has_failed_log = true; has_resolver = false }

abbrev failing : Moments
failing = record {
  unsaved_at_start = true;
  enriched = message_of "msg_1" "shop" "WA1";
  unsaved_after_enrich = true;
  resolved = none;
  answer = rejects (other "busy");
  unsaved_at_failure = true;
  append_succeeds = true;
  taking_directly = false;
}

process-Justified_example : All (Justified deps failing) (process deps (account_of "shop") failing)
process-Justified_example = process-Justified deps (account_of "shop") failing

abbrev left : List Left
left =
    record {
      account = account_of "shop";
      envelope = message_of "msg_1" "shop" "WA1";
      to_enrich = false;
      append_succeeds = true;
    }
    ∷ []

drain-kept_example : kept_of (drain deps left) ≡ map pending_left (filter must_keep left)
drain-kept_example = drain-kept deps left refl (refl, tt)

abbrev look : Answer → Look
look answer = record {
  account = some (account_of "shop");
  resolved = none;
  now = 9;
  connected = true;
  answer = answer;
}

-- The first entry meets a store that fails, the second one that works.
abbrev parse : Line → Option Entry
parse line =
    if length line == 1
    then some (record {
      envelope = message_of "msg_1" "shop" "WA1";
      look = look (rejects (other "busy"));
    })
    else some (record {
      envelope = message_of "msg_2" "shop" "WA2";
      look = look (resolves (inserted 1 none));
    })

abbrev lines : List Line
lines = (1 ∷ []) ∷ (1 ∷ 2 ∷ []) ∷ []

replay-NoneOvertakes_example : NoneOvertakes parse (verdicts parse save_entry [] lines)
replay-NoneOvertakes_example = replay-NoneOvertakes parse [] lines

kept_entry :
    replay_rejection (message_of "msg_1" "shop" "WA1") (look (rejects (other "busy")))
    ≡ keep (message_of "msg_1" "shop" "WA1")
unfolding replay_rejection judges_conversations ends_with_lid judge accepts
kept_entry = refl

-- Two messages of one account, and another account's between them; the first of them fails.
abbrev three_turns : List Turn
three_turns =
    handles "shop" (message_of "msg_1" "shop" "WA1")
    ∷ handles "desk" (message_of "msg_2" "desk" "WA2")
    ∷ handles "shop" (message_of "msg_3" "shop" "WA3")
    ∷ starts 2
    ∷ starts 0
    ∷ settles 0 false
    ∷ cleans 0
    ∷ []

abbrev nothing : UnifiedEnvelope
nothing = message_of "" "" ""

starts_lem_example :
    (turn (run_turns (no_turns nothing) three_turns) (starts 2)).stage 2 ≡ processing
unfolding run_turns turn handle begins ends forgets
starts_lem_example = starts_lem nothing three_turns 2 (omega arith) refl two_over
  where
    two_over : Over (run_turns (no_turns nothing) three_turns) "shop" 2
    two_over zero lt same = refl
    two_over (suc zero) lt same = absurd (cc same)
    two_over (suc (suc i)) lt same = absurd (omega (arith, lt))

abbrev all_turns : List Turn
all_turns = three_turns ++ (starts 2 ∷ [])

run_turns-in_order_example : tail_resolved ((run_turns (no_turns nothing) all_turns).stage 0) ≡ true
unfolding run_turns turn handle begins ends forgets
run_turns-in_order_example =
    run_turns-in_order nothing all_turns 0 2 (omega arith) (omega arith) refl refl
