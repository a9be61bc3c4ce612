-- ===== src/Shutdown/Tests.antt =====
-- The shutdown of the gateway at concrete courses.
use messaging_gateway.Prelude.{◌≤◌, true, false, not, ◌&&◌, ◌≡◌, ◌↔◌, refl}
use messaging_gateway.Shutdown.{
  settles, hangs, run, run_steps, shutdown_total_ms, gateway_shutdown_steps,
}
use messaging_gateway.Shutdown.Budgets.{Shares, all_in_time, gateway_budgets, gateway_exit}

-- The server hangs, and the inbound queue takes most of its time.
server_hangs :
    run shutdown_total_ms 0 false (
      gateway_shutdown_steps
        (hangs 0)
        (settles 200 true 0)
        (settles 3900 true 0)
        (settles 10 true 0)
        (settles 5 true 0))
    ≡ (record { after_ms = 6115; code = 1 })
unfolding run
server_hangs = refl

-- The server hangs, and the timer of its budget is 300 ms late.
gateway_budgets_example :
    Shares 20 0
      (run_steps shutdown_total_ms 20 0 true (
        gateway_shutdown_steps
          (hangs 300)
          (hangs 0)
          (settles 3900 true 0)
          (hangs 10)
          (settles 5 false 0))).began
      (gateway_shutdown_steps
        (hangs 300)
        (hangs 0)
        (settles 3900 true 0)
        (hangs 10)
        (settles 5 false 0))
gateway_budgets_example =
    gateway_budgets 20 (hangs 300) (hangs 0) (settles 3900 true 0) (hangs 10) (settles 5 false 0)

gateway_exit_example :
    ((run shutdown_total_ms 0 false (
        gateway_shutdown_steps
          (settles 9 true 0)
          (settles 200 true 0)
          (settles 3900 true 0)
          (settles 10 true 0)
          (settles 5 true 0))).after_ms
      ≤ shutdown_total_ms)
    × (((run shutdown_total_ms 0 false (
            gateway_shutdown_steps
              (settles 9 true 0)
              (settles 200 true 0)
              (settles 3900 true 0)
              (settles 10 true 0)
              (settles 5 true 0))).code
          ≡ 0)
        ↔ ((all_in_time (
                gateway_shutdown_steps
                  (settles 9 true 0)
                  (settles 200 true 0)
                  (settles 3900 true 0)
                  (settles 10 true 0)
                  (settles 5 true 0))
              && not false)
            ≡ true))
gateway_exit_example =
    gateway_exit false (settles 9 true 0) (settles 200 true 0) (settles 3900 true 0)
      (settles 10 true 0) (settles 5 true 0) (refl, (refl, (refl, (refl, (refl, tt)))))
