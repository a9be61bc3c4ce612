-- ===== src/Shutdown/Budgets.antt =====
-- infrastructure/graceful-shutdown.ts: the time that each step gets, and the exit.
use messaging_gateway.Prelude.{
  Bool-cases, inl, inr, ℕ, ◌+◌, ◌-◌, ◌≤◌, String, Bool, true, false, not, ◌&&◌, List, [], ◌∷◌, min,
  ltb, leb, ◌≡◌, refl, ap, ◌∙◌, arith, ◌↔◌, length, All,
}
use messaging_gateway.Shutdown.{
  ShutdownStep, Course, settles, hangs, late_of, shutdown_total_ms, within_budget, Progress,
  run_steps, exit_of, run, gateway_shutdown_steps,
}

abbrev pub all_of : List (ShutdownStep × Course) → ℕ
all_of [] = 0
all_of ((step, course) ∷ rest) = step.max_ms + all_of rest

-- The step does what it does, well, within its own limit.
abbrev pub in_time : ℕ → Course → Bool
in_time max_ms (hangs late) = false
in_time max_ms (settles after ok late) = ltb after max_ms && ok

abbrev pub all_in_time : List (ShutdownStep × Course) → Bool
all_in_time [] = true
all_in_time ((step, course) ∷ rest) = in_time step.max_ms course && all_in_time rest

abbrev pub full_budgets : List (ShutdownStep × Course) → List (String × ℕ)
full_budgets [] = []
full_budgets ((step, course) ∷ rest) = (step.name, step.max_ms) ∷ full_budgets rest

-- The timers of the budgets fire on time.
abbrev pub AllPrompt : List (ShutdownStep × Course) → Type 0
AllPrompt steps = All (λ (s : ShutdownStep × Course). late_of s.1 ≡ 0) steps

record Full (total elapsed : ℕ) (clean : Bool) (steps : List (ShutdownStep × Course)) (p : Progress)
    : Type 0 where
  budgets : p.began ≡ full_budgets steps
  verdict : p.clean ≡ (clean && all_in_time steps)
  short : p.elapsed ≤ elapsed + all_of steps
  shorter : all_in_time steps ≡ true → p.elapsed + length steps ≤ elapsed + all_of steps

took_le :
    (max_ms : ℕ) (course : Course)
    → late_of course ≡ 0
    → 1 ≤ max_ms
    → (within_budget max_ms course).0 ≤ max_ms
took_le max_ms (hangs late) l h = omega (arith, l, h)
took_le max_ms (settles after ok late) l h = ground (arith, l, h)

took_lt :
    (max_ms : ℕ) (course : Course)
    → in_time max_ms course ≡ true
    → (within_budget max_ms course).0 + 1 ≤ max_ms
took_lt max_ms (hangs late) h = absurd (cc h)
took_lt max_ms (settles after ok late) h = ground (arith, h)

took_well :
    (max_ms : ℕ) (course : Course)
    → late_of course ≡ 0
    → 1 ≤ max_ms
    → (within_budget max_ms course).1 ≡ in_time max_ms course
took_well max_ms (hangs late) l h = refl
took_well max_ms (settles after ok late) l h = ground (arith, l, h)

and_assoc : (a b c : Bool) → ((a && b) && c) ≡ (a && (b && c))
and_assoc true b c = refl
and_assoc false b c = refl

and-both : (a b : Bool) → (a && b) ≡ true → (a ≡ true) × (b ≡ true)
and-both true b h = (refl, h)
and-both false b h = absurd (cc h)

run_steps-Full :
    (total elapsed : ℕ) (clean : Bool) (steps : List (ShutdownStep × Course))
    → All (λ (s : ShutdownStep × Course). 1 ≤ s.0.max_ms) steps
    → AllPrompt steps
    → elapsed + all_of steps ≤ total
    → Full total elapsed clean steps (run_steps total 0 elapsed clean steps)
unfolding run_steps
run_steps-Full total elapsed clean [] a l h = record {
  budgets = refl;
  verdict = ground arith;
  short = omega arith;
  shorter = λ e. omega arith;
}
run_steps-Full total elapsed clean ((step, course) ∷ rest) (one, a) (l, ls) h =
    let budget : min step.max_ms (total - elapsed) ≡ step.max_ms = omega (arith, h) in
    let goes_on : leb (total + 0) elapsed ≡ false = ground (arith, one, h) in
    let took = (within_budget step.max_ms course).0 in
    let le = took_le step.max_ms course l one in
    let ih =
      run_steps-Full total (elapsed + took) (clean && (within_budget step.max_ms course).1) rest a
        ls (omega (arith, le, h)) in
    rw (goes_on, budget)
      (record {
        budgets = ap (◌∷◌ (step.name, step.max_ms)) ih.budgets;
        verdict =
            ih.verdict
            ∙ (rw (took_well step.max_ms course l one)
                (and_assoc clean (in_time step.max_ms course) (all_in_time rest)));
        short = omega (arith, ih.short, le);
        shorter = λ e.
            let (here, later) = and-both (in_time step.max_ms course) (all_in_time rest) e in
            omega (arith, took_lt step.max_ms course here, ih.shorter later);
      })

-- The times that the steps are given, by the lateness of the timers before them: a step's own time less that at
-- most, and no more than its own; one that is not begun would have come after the hard stop, and then the timers
-- before it were as late as that stop and all the steps that were left have time together.
abbrev pub Shares : ℕ → ℕ → List (String × ℕ) → List (ShutdownStep × Course) → Type 0
Shares late before [] [] = Unit
Shares late before [] ((step, course) ∷ rest) = all_of ((step, course) ∷ rest) + late ≤ before
Shares late before (begun ∷ began) [] = ⊥
Shares late before ((name, budget) ∷ began) ((step, course) ∷ rest) =
    (name ≡ step.name)
    × (step.max_ms ≤ budget + before)
    × (budget ≤ step.max_ms)
    × Shares late (before + late_of course) began rest

took_at_most :
    (max_ms budget : ℕ) (course : Course)
    → 1 ≤ max_ms
    → budget ≤ max_ms
    → (within_budget budget course).0 ≤ max_ms + late_of course
took_at_most max_ms budget (hangs late) h k = omega (arith, h, k)
took_at_most max_ms budget (settles after ok late) h k = ground (arith, h, k)

run_steps-Shares :
    (total late elapsed before : ℕ) (clean : Bool) (spent : ℕ)
    (steps : List (ShutdownStep × Course))
    → All (λ (s : ShutdownStep × Course). 1 ≤ s.0.max_ms) steps
    → elapsed ≤ spent + before
    → spent + all_of steps ≡ total
    → Shares late before (run_steps total late elapsed clean steps).began steps
unfolding run_steps
run_steps-Shares total late elapsed before clean spent [] a h k = tt
run_steps-Shares total late elapsed before clean spent ((step, course) ∷ rest) (one, a) h k =
    let budget = min step.max_ms (total - elapsed) in
    let took = (within_budget budget course).0 in
    let le = took_at_most step.max_ms budget course one (omega arith) in
    let ih =
      run_steps-Shares total late (elapsed + took) (before + late_of course)
        (clean && (within_budget budget course).1) (spent + step.max_ms) rest a
        (omega (arith, le, h)) (omega (arith, k)) in
    elim (Bool-cases (leb (total + late) elapsed)) [
      | inl gone ↦
          let past : total + late ≤ elapsed = ground (arith, gone) in
          rw gone (omega (arith, past, h, k))
      | inr goes_on ↦ rw goes_on (refl, omega (arith, h, k), omega arith, ih)
    ]

-- The gateway's steps get their times whatever each of them does: a step that begins is given no more than its own
-- time and no less than that but for the lateness of the timers of the steps before it, and one is left out only
-- if these timers were as late together as the hard stop and the times of it and the steps after it.
pub gateway_budgets :
    (late : ℕ) (server providers inbound webhooks store : Course)
    → Shares late 0
        (run_steps shutdown_total_ms late 0 true
          (gateway_shutdown_steps server providers inbound webhooks store)).began
        (gateway_shutdown_steps server providers inbound webhooks store)
gateway_budgets late server providers inbound webhooks store =
    run_steps-Shares shutdown_total_ms late 0 0 true 0
      (gateway_shutdown_steps server providers inbound webhooks store)
      (omega arith, (omega arith, (omega arith, (omega arith, (omega arith, tt))))) (omega arith)
      (omega arith)

-- If its timers fire on time, the gateway exits within the limit, whatever its steps do, with code 0 exactly if
-- each of them ends well within its own time and no crash asked for the shutdown.
pub gateway_exit :
    (failed : Bool) (server providers inbound webhooks store : Course)
    → AllPrompt (gateway_shutdown_steps server providers inbound webhooks store)
    → ((run shutdown_total_ms 0 failed
          (gateway_shutdown_steps server providers inbound webhooks store)).after_ms
        ≤ shutdown_total_ms)
      × (((run shutdown_total_ms 0 failed
              (gateway_shutdown_steps server providers inbound webhooks store)).code
            ≡ 0)
          ↔ ((all_in_time (gateway_shutdown_steps server providers inbound webhooks store)
                && not failed)
              ≡ true))
unfolding run
gateway_exit failed server providers inbound webhooks store prompt =
    let steps = gateway_shutdown_steps server providers inbound webhooks store in
    let p = run_steps shutdown_total_ms 0 0 true steps in
    let law =
      run_steps-Full shutdown_total_ms 0 true steps
        (omega arith, (omega arith, (omega arith, (omega arith, (omega arith, tt))))) prompt
        (omega arith) in
    exits failed p (all_in_time steps) law.verdict law.short law.shorter
  where
    exits :
        (failed : Bool) (p : Progress) (well : Bool)
        → p.clean ≡ well
        → p.elapsed ≤ shutdown_total_ms
        → (well ≡ true → p.elapsed + 5 ≤ shutdown_total_ms)
        → ((exit_of shutdown_total_ms 0 failed p).after_ms ≤ shutdown_total_ms)
          × (((exit_of shutdown_total_ms 0 failed p).code ≡ 0) ↔ ((well && not failed) ≡ true))
    exits failed p true v s t =
        let before : leb (shutdown_total_ms + 0) p.elapsed ≡ false = ground (arith, t refl) in
        (
          ground (arith, before, s),
          (λ e. ground (arith, before, v, e), λ e. ground (arith, before, v, e)),
        )
    exits failed p false v s t =
        (ground (arith, s), (λ e. ground (arith, v, e), λ e. absurd (cc e)))
