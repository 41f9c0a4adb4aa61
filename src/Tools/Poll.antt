-- ===== src/Tools/Poll.antt =====
-- internal/mcpserv/read_tools.go: poll_new_messages. A round of its loop sees the clock, the context
-- and the store of its moment; the answer is what the text that it prints tells.
pub mod Settles
pub mod Stalls
use whatsapp_connect_mcp.Prelude.{
  ℕ, zero, suc, ◌+◌, ◌*◌, String, Bool, true, false, not, ◌&&◌, ◌||◌, Option, none, some, List, [],
  ◌∷◌, ◌==◌, ◌≡◌, refl, if◌then◌else◌, ltb, Result, ok, err,
}
use whatsapp_connect_mcp.Prelude.Int.{ℤ, pos, negsuc, ltb_ℤ}
use whatsapp_connect_mcp.Store.Rows.{MessageRow, clamp_limit}
use whatsapp_connect_mcp.Access.ScopedStore.{ReadError, StoreApi, Answer}
use whatsapp_connect_mcp.Gate.Types.{second}
use whatsapp_connect_mcp.Tools.Send.{ToolError, unread, bad_argument}

abbrev pub max_poll_timeout_seconds : ℕ
max_poll_timeout_seconds = 240

abbrev pub default_poll_every : ℕ
default_poll_every = second

-- clampPollTimeout
unfoldable pub clamp_poll_timeout : ℤ → ℕ
clamp_poll_timeout (negsuc n) = 0
clamp_poll_timeout (pos n) = if ltb max_poll_timeout_seconds n then max_poll_timeout_seconds else n

pub record PollNewMessagesInput : Type 0 where
  pub cursor : String
  pub tail : ℤ
  pub chat_jid : String
  pub timeout_seconds : ℤ
  pub include_own : Bool
  pub limit : ℤ

pub data PollAnswer : Type 0 where
  watching : ℕ → PollAnswer
  received : List MessageRow → ℕ → PollAnswer
  nothing_new : ℕ → PollAnswer

pub record Round : Type 0 where
  pub store : StoreApi
  pub now : ℕ
  pub cancelled : Bool

-- Where the call stands before its loop: at the present, or at a cursor to read on from.
pub data Start : Type 0 where
  anchored : ℕ → Start
  from : ℕ → Start

abbrev started_at : Answer ℕ → (ℕ → Start) → Result ToolError Start
started_at (err e) k = err (unread e)
started_at (ok n) k = ok (k n)

abbrev read_cursor : Option ℤ → Result ToolError Start
read_cursor (some (pos n)) = ok (from n)
read_cursor _ = err (bad_argument "invalid cursor")

unfoldable pub start_poll :
    (String → Option ℤ) → StoreApi → PollNewMessagesInput → Result ToolError Start
start_poll parse_int st i =
    if ltb_ℤ (pos 0) i.tail && not (i.cursor == "")
    then err (bad_argument "use tail only on the first call, without a cursor")
    else if ltb_ℤ (pos 0) i.tail
    then started_at (st.tail_rowid i.chat_jid i.include_own i.tail) from
    else if i.cursor == ""
    then started_at st.latest_rowid anchored
    else read_cursor (parse_int i.cursor)

unfoldable pub polled : PollNewMessagesInput → ℕ → Round → Answer (List MessageRow × ℕ)
unfolding clamp_limit
polled i cursor r =
    r.store.messages_after_rowid i.chat_jid cursor i.include_own (pos (clamp_limit i.limit))

-- What a round returns with, if it does; the flag is whether the call is at its end.
abbrev pub seen : Answer (List MessageRow × ℕ) → Bool → ℕ → Option (Result ToolError PollAnswer)
seen (err e) over cursor = some (err (unread e))
seen (ok (m ∷ ms, next)) over cursor = some (ok (received (m ∷ ms) next))
seen (ok ([], next)) true cursor = some (ok (nothing_new cursor))
seen (ok ([], next)) false cursor = none

-- Whether the deadline would pass in the next wait, or the context ends in it.
abbrev pub is_last : ℕ → ℕ → Round → Bool
is_last every deadline r = not (ltb (r.now + every) deadline) || r.cancelled

module _ (i : PollNewMessagesInput) (every deadline cursor : ℕ) where
  unfoldable pub poll_round : Round → Option (Result ToolError PollAnswer)
  unfolding polled
  poll_round r = seen (polled i cursor r) (is_last every deadline r) cursor

  -- The loop, within its fuel, from the round of a number on.
  unfoldable pub poll_loop : ℕ → (ℕ → Round) → ℕ → Option (Result ToolError PollAnswer)
  unfolding poll_round
  poll_loop zero rounds n = none
  poll_loop (suc fuel) rounds n =
      let later = poll_loop fuel rounds (suc n) in
      elim (poll_round (rounds n)) [ some a ↦ some a | none ↦ later ]

abbrev pub poll_pace : ℕ → ℕ
poll_pace zero = default_poll_every
poll_pace every = every

module _ (every : ℕ) (fuel : ℕ) (started : ℕ) (rounds : ℕ → Round) (i : PollNewMessagesInput) where
  abbrev pub polling : Result ToolError Start → Option (Result ToolError PollAnswer)
  polling (err e) = some (err e)
  polling (ok (anchored watermark)) = some (ok (watching watermark))
  polling (ok (from cursor)) =
      poll_loop i (poll_pace every) (started + clamp_poll_timeout i.timeout_seconds * second) cursor
        fuel rounds 0

  -- poll_new_messages, with the configured interval, zero for the default one.
  unfoldable pub poll_new_messages : (String → Option ℤ) → Option (Result ToolError PollAnswer)
  unfolding start_poll poll_loop clamp_poll_timeout
  poll_new_messages parse_int = polling (start_poll parse_int (rounds 0).store i)
