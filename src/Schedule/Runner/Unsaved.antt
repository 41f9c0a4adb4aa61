-- ===== src/Schedule/Runner/Unsaved.antt =====
-- An Add of internal/schedule/schedule.go that fails, and the round of the runner after it.
use whatsapp_connect_mcp.Schedule.Store.{Store}
