-- ===== src/Tools/Schedules/Delays.antt =====
-- resolveFireAt of internal/mcpserv/sched_tools.go: what a delay in minutes comes to.
use whatsapp_connect_mcp.Prelude.{ℕ, zero, suc, ◌+◌, ◌*◌, ◌/◌, ◌≤◌, ◌<◌, ◌≡◌, ok, arith}
use whatsapp_connect_mcp.Prelude.Int.{pos, to_int64}
use whatsapp_connect_mcp.Gate.Types.{second}
use whatsapp_connect_mcp.Tools.Schedules.{Times, resolve_fire_at}

-- A delay of up to 153722867 minutes is counted exactly: the fire time is that many minutes after
-- the second in which the call was made.
pub delay_exact :
    (times : Times) (delay now : ℕ)
    → 0 < delay
    → delay ≤ 153_722_867
    → resolve_fire_at times "" (pos delay) now ≡ ok (pos (now / second + 60 * delay))
unfolding resolve_fire_at to_int64
delay_exact times zero now h b = ground arith
delay_exact times (suc n) now h b = ground (arith, b)
