-- ===== src/Tests/Schedules.antt =====
-- internal/schedule on a store of two entries.
use mathlib.Core.List.{◌++◌}
use whatsapp_connect_mcp.Prelude.{
  ℕ, suc, ◌*◌, String, true, false, Option, none, some, List, [], ◌∷◌, ◌≡◌, refl, ok, arith,
}
use whatsapp_connect_mcp.Prelude.Int.{pos, ◌-ℤ◌}
use whatsapp_connect_mcp.Prelude.Sorting.{sort_by, insert_by}
use whatsapp_connect_mcp.Gate.Types.{Delivery, delivery, Deliverer, Limiter, State, second}
use whatsapp_connect_mcp.Gate.Render.{Codec}
use whatsapp_connect_mcp.Gate.Ops.{deliver_scheduled, deliver_now, send}
use whatsapp_connect_mcp.Schedule.Store.{
  Entry, holds, Store, load, add, list, is_missed, persist, notify, remove_id,
}
use whatsapp_connect_mcp.Schedule.Persistence.{restart_after_add}
use whatsapp_connect_mcp.Schedule.Admission.{Desk}
use whatsapp_connect_mcp.Schedule.Runner.{Runtime, is_due, runner_step, rounds, round}
use whatsapp_connect_mcp.Schedule.Runner.Progress.{rounds_drain}

abbrev at_time : ℕ → Delivery
at_time t = record (delivery "text" "anna") { text = "hi"; fire_at = pos t }

abbrev entry : String → ℕ → Entry
entry id t = record { id = id; delivery = at_time t; preview = "p"; created = pos 1 }

abbrev pending : List Entry
pending = entry "b" 2000 ∷ entry "a" 1000 ∷ []

abbrev two : Store
two = record { file = holds pending; entries = pending; changed = false }

abbrev pub generous : Limiter ℕ
generous = record { allow_n = λ t n. (true, n) }

abbrev counter : Deliverer ℕ
counter = record { deliver = λ d w. (ok "id", suc w); validate = λ d w. none }

abbrev plain : Codec
plain = record { quote = λ s. s; rfc3339 = λ t. "t"; sha256 = λ s. s; hex = λ s. s }

abbrev running : Runtime ℕ ℕ
running = record { store = two; gate = record { world = 0; limiter = 0; drafts = []; order = [] } }

abbrev content : Delivery → Option String
content d = none

abbrev desk : Desk
desk = record { store = two; now = pos 500; next_id = some "c"; writable = true }

list_first : list two ≡ entry "a" 1000 ∷ entry "b" 2000 ∷ []
unfolding list sort_by insert_by
list_first = refl

runner_sends_first :
    (runner_step counter generous 12 plain (1500 * second) true running).1.store.entries
    ≡ entry "b" 2000 ∷ []
unfolding runner_step list sort_by insert_by round is_due deliver_scheduled deliver_now send
    remove_id
runner_sends_first = refl

restart_after_add_example :
    let s' = (add true (some "c") (pos 500) (at_time 3000) "p" two).1 in
    load true s'.file (pos 500)
    ≡ ok (
      record {
        file = s'.file;
        entries =
            pending
            ++ (record { id = "c"; delivery = at_time 3000; preview = "p"; created = pos 500 }
                ∷ []);
        changed = false;
      },
      [],
    )
unfolding add is_missed persist notify ◌-ℤ◌
restart_after_add_example =
    restart_after_add true true (some "c") (pos 500) (at_time 3000) "p" two (pos 500)
      {e = record { id = "c"; delivery = at_time 3000; preview = "p"; created = pos 500 }} refl refl

abbrev bare_store : Store
bare_store = record { file = holds []; entries = []; changed = false }

abbrev pub fresh : State Desk ℕ
fresh = record { world = desk; limiter = 0; drafts = []; order = [] }

rounds_drain_example :
    (rounds counter generous 12 plain true
      (2000 * second ∷ 2001 * second ∷ [])
      running).store.entries
    ≡ []
unfolding is_due
rounds_drain_example =
    rounds_drain counter generous 12 plain (λ t l. refl) true (2000 * second ∷ 2001 * second ∷ [])
      running (omega arith) ((refl, (refl, tt)), ((refl, (refl, tt)), tt))
