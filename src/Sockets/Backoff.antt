-- ===== src/Sockets/Backoff.antt =====
-- core/util/backoff.ts and the delay of scheduleReconnect in
-- integrations/whatsapp/baileys/baileys-socket.manager.ts.
use messaging_gateway.Prelude.{ℕ, ◌≤◌, Option, some, ◌≡◌, arith}
use messaging_gateway.Sockets.{
  Setup, delay_ms, default_max_ms, backoff_ceiling, connection_replaced_min_delay_ms,
}

ceiling_le : (attempt : ℕ) → backoff_ceiling attempt ≤ default_max_ms
ceiling_le attempt = omega arith

-- However often an account has failed, the next attempt comes within five minutes, and after the connection was
-- replaced by another session it comes after exactly five. The jitter takes no more than the ceiling it is given.
pub delay_ms_lem :
    (setup : Setup) (attempt : ℕ) (code : Option ℕ)
    → ((n : ℕ) → setup.jitter n ≤ n)
    → (delay_ms setup attempt code ≤ default_max_ms)
      × (delay_ms setup attempt (some 440) ≡ connection_replaced_min_delay_ms)
delay_ms_lem setup attempt code j =
    let low = j (backoff_ceiling attempt) in
    let top = ceiling_le attempt in (ground (arith, low, top), omega (arith, low, top))
