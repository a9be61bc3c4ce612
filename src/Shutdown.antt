-- ===== src/Shutdown.antt =====
-- infrastructure/graceful-shutdown.ts: the steps of a shutdown, their budgets and the exit. What a step does is an
-- argument; time is the milliseconds since the signal. A timer fires no sooner than it is due, and as late as an
-- argument says: Node promises no more, and a busy event loop delays it.
pub mod Budgets
mod Tests
use messaging_gateway.Prelude.{
  ℕ, ◌+◌, ◌-◌, String, Bool, true, false, not, ◌&&◌, List, [], ◌∷◌, if◌then◌else◌, min, max, ltb,
  leb,
}

pub record ShutdownStep : Type 0 where
  pub name : String
  pub max_ms : ℕ

-- A step's promise settles after so long, well or not, or never; and how late the timer of its budget fires.
pub data Course : Type 0 where
  settles : ℕ → Bool → ℕ → Course
  hangs : ℕ → Course

abbrev pub late_of : Course → ℕ
late_of (settles after ok late) = late
late_of (hangs late) = late

abbrev pub shutdown_total_ms : ℕ
shutdown_total_ms = 10000

abbrev pub write_off_reserve_ms : ℕ
write_off_reserve_ms = 500

-- The timer of `withinBudget`; a delay below one millisecond is one.
abbrev pub timeout_ms : ℕ → ℕ
timeout_ms budget = max budget 1

-- How long the step holds the shutdown back, and whether it ended well.
abbrev pub within_budget : ℕ → Course → ℕ × Bool
within_budget budget (hangs late) = (timeout_ms budget + late, false)
within_budget budget (settles after ok late) =
    if ltb after (timeout_ms budget + late) then (after, ok) else (timeout_ms budget + late, false)

pub record Progress : Type 0 where
  pub elapsed : ℕ
  pub clean : Bool
  pub began : List (String × ℕ)

abbrev pub begun : String → ℕ → Progress → Progress
begun name budget p = record p { began = (name, budget) ∷ p.began }

-- The loop over the steps, each with the budget it is given, 0 where the source has less; once the hard stop fires,
-- so late after the limit, the process is gone.
unfoldable pub run_steps : ℕ → ℕ → ℕ → Bool → List (ShutdownStep × Course) → Progress
run_steps total late elapsed clean [] = record { elapsed = elapsed; clean = clean; began = [] }
run_steps total late elapsed clean ((step, course) ∷ rest) =
    let budget = min step.max_ms (total - elapsed) in
    let (took, ok) = within_budget budget course in
    let later = run_steps total late (elapsed + took) (clean && ok) rest in
    if leb (total + late) elapsed
    then record { elapsed = elapsed; clean = clean; began = [] }
    else begun step.name budget later

pub record Exit : Type 0 where
  pub after_ms : ℕ
  pub code : ℕ

-- The hard stop comes first where both are due.
abbrev pub exit_of : ℕ → ℕ → Bool → Progress → Exit
exit_of total late failed p =
    if leb (total + late) p.elapsed
    then record { after_ms = total + late; code = 1 }
    else record { after_ms = p.elapsed; code = if p.clean && not failed then 0 else 1 }

unfoldable pub run : ℕ → ℕ → Bool → List (ShutdownStep × Course) → Exit
unfolding run_steps
run total late failed steps = exit_of total late failed (run_steps total late 0 true steps)

abbrev step : String → ℕ → ShutdownStep
step name max_ms = record { name = name; max_ms = max_ms }

-- The five steps, each with what it does.
abbrev pub gateway_shutdown_steps :
    Course → Course → Course → Course → Course → List (ShutdownStep × Course)
gateway_shutdown_steps server providers inbound webhooks store =
    (step "stop accepting requests" 2000, server)
    ∷ (step "close provider connections" 1000, providers)
    ∷ (step "drain the inbound queue" 4000, inbound)
    ∷ (step "drain webhooks" 2000, webhooks)
    ∷ (step "close the message store" 1000, store)
    ∷ []
