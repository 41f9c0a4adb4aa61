-- ===== src/Tests/Polls.antt =====
-- poll_new_messages of internal/mcpserv on the database of two chats.
use whatsapp_connect_mcp.Prelude.{ℕ, ◌*◌, String, true, false, Option, some, ◌≡◌, refl, ok, arith}
use whatsapp_connect_mcp.Prelude.Int.{ℤ, pos}
use whatsapp_connect_mcp.Gate.Types.{second}
use whatsapp_connect_mcp.Access.ScopedStore.{scope_of}
use whatsapp_connect_mcp.Access.Config.{is_readable, scope_active}
use whatsapp_connect_mcp.Store.Rows.{clamp_limit}
use whatsapp_connect_mcp.Store.Poll.{messages_after_rowid}
use whatsapp_connect_mcp.Access.ScopedStore.Backed.{store_api}
use whatsapp_connect_mcp.Tools.Poll.{
  PollNewMessagesInput, nothing_new, Round, start_poll, poll_new_messages,
}
use whatsapp_connect_mcp.Tools.Poll.Stalls.{scoped, poll_stalls}
use whatsapp_connect_mcp.Tests.Database.{two}
use whatsapp_connect_mcp.Tests.Reads.{engine, only_anna, has}

abbrev rounds : ℕ → Round
rounds n = record { store = store_api engine two; now = second * n; cancelled = false }

abbrev parse_int : String → Option ℤ
parse_int t = some (pos 0)

abbrev input : PollNewMessagesInput
input = record {
  cursor = "0";
  tail = pos 0;
  chat_jid = "";
  timeout_seconds = pos 30;
  include_own = true;
  limit = pos 1;
}

abbrev seen_rounds : ℕ → Round
seen_rounds = scoped has (scope_of only_anna) input 0 0 rounds parse_int

-- The message of the other chat comes first, so a page of one row hides the one that is readable.
hidden : (messages_after_rowid two "" 0 true (pos 1)).1 ≡ 1
unfolding messages_after_rowid clamp_limit
hidden = refl

poll_stalls_example :
    poll_new_messages 0 240 0 seen_rounds input parse_int ≡ some (ok (nothing_new 0))
unfolding scope_active is_readable messages_after_rowid start_poll store_api clamp_limit
poll_stalls_example =
    poll_stalls has (scope_of only_anna) input 0 0 rounds parse_int refl refl refl
      (λ n. omega arith) (omega arith) (λ n. (refl, tt))
