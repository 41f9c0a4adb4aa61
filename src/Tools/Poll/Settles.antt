-- ===== src/Tools/Poll/Settles.antt =====
-- poll_new_messages of internal/mcpserv/read_tools.go: when it returns, and with what.
use whatsapp_connect_mcp.Prelude.{
  ℕ, zero, suc, ◌+◌, ◌*◌, ◌≤◌, ◌<◌, leb, if◌then◌else◌, String, Bool, true, false, Option, none,
  some, List, [], ◌∷◌, ◌≡◌, refl, eqb, Result, ok, err, arith, Option-cases, Bool-cases, inl, inr,
  ◌==◌, ◌⊎◌,
}
use whatsapp_connect_mcp.Prelude.Int.{ℤ, pos, negsuc, ltb_ℤ, pos_part}
use whatsapp_connect_mcp.Store.Rows.{MessageRow, clamp_limit}
use whatsapp_connect_mcp.Access.ScopedStore.{Answer, StoreApi}
use whatsapp_connect_mcp.Gate.Types.{second}
use whatsapp_connect_mcp.Tools.Send.{ToolError, unread}
use whatsapp_connect_mcp.Tools.Poll.{
  PollNewMessagesInput, PollAnswer, watching, received, nothing_new, Round, Start, anchored, from,
  clamp_poll_timeout, start_poll, polled, seen, is_last, poll_round, poll_loop, polling,
  poll_new_messages,
}

abbrev pub IsEmpty : Answer (List MessageRow × ℕ) → Type 0
IsEmpty q = (next : ℕ) × (q ≡ ok ([], next))

-- The rounds are at least a default interval apart.
abbrev pub Paced : (ℕ → Round) → Type 0
Paced rounds = (n : ℕ) → (rounds n).now + second ≤ (rounds (suc n)).now

seen-last :
    (r : Answer (List MessageRow × ℕ)) (c : ℕ)
    → (a : Result ToolError PollAnswer) × (seen r true c ≡ some a)
seen-last (err e) c = (_, refl)
seen-last (ok (m ∷ ms, next)) c = (_, refl)
seen-last (ok ([], next)) c = (_, refl)

seen-none :
    (r : Answer (List MessageRow × ℕ)) (over : Bool) (c : ℕ) → seen r over c ≡ none → IsEmpty r
seen-none (err e) over c h = absurd (ground (arith, h))
seen-none (ok (m ∷ ms, next)) over c h = absurd (ground (arith, h))
seen-none (ok ([], next)) over c h = (next, refl)

clamp_poll_timeout-bound : (t : ℤ) → clamp_poll_timeout t ≤ 240
unfolding clamp_poll_timeout
clamp_poll_timeout-bound (negsuc n) = omega arith
clamp_poll_timeout-bound (pos n) = ground arith

module _ (i : PollNewMessagesInput) (deadline cursor : ℕ) (rounds : ℕ → Round) where
  -- The call returns in a round with its answer, and no round before it found a message.
  abbrev pub Ends : ℕ → Result ToolError PollAnswer → Type 0
  Ends n a =
      (k : ℕ) × (poll_round i second deadline cursor (rounds k) ≡ some a)
      × ((j : ℕ) → n ≤ j → j < k → IsEmpty (polled i cursor (rounds j)))

  round-last :
      (r : Round)
      → deadline ≤ r.now + second
      → (a : Result ToolError PollAnswer) × (poll_round i second deadline cursor r ≡ some a)
  unfolding poll_round
  round-last r h =
      let over : is_last second deadline r ≡ true = ground (arith, h) in
      rw over (seen-last (polled i cursor r) cursor)

  round-none :
      (r : Round) → poll_round i second deadline cursor r ≡ none → IsEmpty (polled i cursor r)
  unfolding poll_round
  round-none r h = seen-none (polled i cursor r) (is_last second deadline r) cursor h

  poll_loop-Ends :
      Paced rounds
      → (fuel n : ℕ) → deadline ≤ (rounds n).now + second * suc fuel
      → (a : Result ToolError PollAnswer) × (poll_loop i second deadline cursor (suc fuel) rounds n
          ≡ some a)
        × Ends n a
  unfolding poll_loop
  poll_loop-Ends paced zero n h =
      let (a, e) = round-last (rounds n) (omega (arith, h)) in
      (a, ground (arith, e), (n, e, λ j p q. absurd (omega (arith, p, q))))
  poll_loop-Ends paced (suc fuel) n h =
      elim (Option-cases (poll_round i second deadline cursor (rounds n))) [
        | inr (a, e) ↦ (a, ground (arith, e), (n, e, λ j p q. absurd (omega (arith, p, q))))
        | inl e ↦
            let (a, p, (k, q, quiet)) =
              poll_loop-Ends paced fuel (suc n) (omega (arith, paced n, h)) in
            (
              a,
              ground (arith, e, p),
              (
                k,
                q,
                λ j l m. elim (Bool-cases (eqb j n)) [
                  | inl s ↦
                      let same : j ≡ n = ground (arith, s) in rw same (round-none (rounds n) e)
                  | inr s ↦ quiet j (ground (arith, l, s)) m
                ],
              ),
            )
      ]

module _ (started : ℕ) (rounds : ℕ → Round) (i : PollNewMessagesInput) where
  abbrev pub Explained : Result ToolError Start → Result ToolError PollAnswer → Type 0
  Explained (err e) a = a ≡ err e
  Explained (ok (anchored watermark)) a = a ≡ ok (watching watermark)
  Explained (ok (from cursor)) a =
      Ends i (started + clamp_poll_timeout i.timeout_seconds * second) cursor rounds 0 a

  polling-Explained :
      (s : Result ToolError Start)
      → Paced rounds
      → started ≤ (rounds 0).now
      → (a : Result ToolError PollAnswer) × (polling 0 240 started rounds i s ≡ some a)
        × Explained s a
  polling-Explained (err e) paced h = (_, refl, refl)
  polling-Explained (ok (anchored w)) paced h = (_, refl, refl)
  polling-Explained (ok (from c)) paced h =
      poll_loop-Ends i _ c rounds paced 239 0
        (omega (arith, h, clamp_poll_timeout-bound i.timeout_seconds))

  pub poll-Explained :
      (parse_int : String → Option ℤ)
      → Paced rounds
      → started ≤ (rounds 0).now
      → (a : Result ToolError PollAnswer) × (poll_new_messages 0 240 started rounds i parse_int
          ≡ some a)
        × Explained (start_poll parse_int (rounds 0).store i) a
  unfolding poll_new_messages
  poll-Explained parse_int paced h =
      polling-Explained (start_poll parse_int (rounds 0).store i) paced h

-- The query of a round.
abbrev pub asked : PollNewMessagesInput → ℕ → Round → Answer (List MessageRow × ℕ)
asked i cursor r =
    r.store.messages_after_rowid i.chat_jid cursor i.include_own (pos (clamp_limit i.limit))

-- What the call must answer to what the store answers in its last round: without a message, its own
-- cursor, and only if there is no time to wait for one.
abbrev pub Answers :
    ℕ → ℕ → Round → Answer (List MessageRow × ℕ) → Result ToolError PollAnswer → Type 0
Answers deadline cursor r (err e) a = a ≡ err (unread e)
Answers deadline cursor r (ok (m ∷ ms, next)) a = a ≡ ok (received (m ∷ ms) next)
Answers deadline cursor r (ok ([], next)) a =
    (a ≡ ok (nothing_new cursor)) × ((deadline ≤ r.now + second) ⊎ (r.cancelled ≡ true))

-- A call that reads on from a cursor: the one it was given, or the one that its tail stands for.
abbrev pub ReadsFrom : (String → Option ℤ) → StoreApi → PollNewMessagesInput → ℕ → Type 0
ReadsFrom parse_int st i cursor =
    ((ltb_ℤ (pos 0) i.tail ≡ false)
      × ((i.cursor == "") ≡ false)
      × (parse_int i.cursor ≡ some (pos cursor)))
    ⊎ ((ltb_ℤ (pos 0) i.tail ≡ true)
        × ((i.cursor == "") ≡ true)
        × (st.tail_rowid i.chat_jid i.include_own i.tail ≡ ok cursor))

-- The seconds that a call may take: those asked for, up to four minutes.
abbrev pub allowance : ℤ → ℕ
allowance t = if leb (pos_part t) 240 then pos_part t else 240
