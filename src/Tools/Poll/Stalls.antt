-- ===== src/Tools/Poll/Stalls.antt =====
-- poll_new_messages of internal/mcpserv/read_tools.go over the scoped store of internal/mcpserv/scope.go.
use whatsapp_connect_mcp.Prelude.{
  ℕ, ◌≤◌, String, Bool, true, false, Option, some, List, [], ◌∷◌, ◌≡◌, refl, Result, ok, err, arith,
  All, keep, subst, sym, ◌∙◌,
}
use whatsapp_connect_mcp.Prelude.Int.{ℤ, pos}
use whatsapp_connect_mcp.Store.Rows.{MessageRow, clamp_limit}
use whatsapp_connect_mcp.Access.ScopedStore.{
  Scope, Answer, scoped_store, mapped, narrowed, keep_allowed,
}
use whatsapp_connect_mcp.Gate.Types.{second}
use whatsapp_connect_mcp.Tools.Send.{ToolError}
use whatsapp_connect_mcp.Tools.Poll.{
  PollNewMessagesInput, PollAnswer, nothing_new, Round, from, start_poll, polled, seen, is_last,
  poll_round, poll_new_messages,
}
use whatsapp_connect_mcp.Tools.Poll.Settles.{Paced, Explained, poll-Explained}

-- A page of the store that has no row of a readable chat.
abbrev pub Hides : Scope → Answer (List MessageRow × ℕ) → Type 0
Hides scope (err e) = ⊥
Hides scope (ok (ms, next)) = All (λ m. scope.readable m.chat_jid ≡ false) ms

keep-none :
    (scope : Scope) (ms : List MessageRow)
    → All (λ m. scope.readable m.chat_jid ≡ false) ms
    → keep (λ m. scope.readable m.chat_jid) ms ≡ []
keep-none scope [] h = refl
keep-none scope (m ∷ ms) h = ground (arith, h.0, keep-none scope ms h.1)

abbrev readable_page : Scope → List MessageRow × ℕ → List MessageRow × ℕ
readable_page scope page = (keep_allowed scope (λ m. m.chat_jid) page.0, page.1)

page-empty :
    (scope : Scope) (r : Answer (List MessageRow × ℕ))
    → scope.active ≡ true
    → Hides scope r
    → (next : ℕ) × (mapped (readable_page scope) r ≡ ok ([], next))
page-empty scope (err e) h k = absurd k
page-empty scope (ok (ms, next)) h k = (next, rw (h, keep-none scope ms k) refl)

seen-empty :
    (r : Answer (List MessageRow × ℕ)) (next : ℕ) (over : Bool) (c : ℕ)
    (a : Result ToolError PollAnswer)
    → r ≡ ok ([], next)
    → seen r over c ≡ some a
    → a ≡ ok (nothing_new c)
seen-empty r next true c a e h =
    let same : seen (ok ([], next)) true c ≡ some a = subst (λ x. seen x true c ≡ some a) e h in
    ground (arith, same)
seen-empty r next false c a e h =
    let same : seen (ok ([], next)) false c ≡ some a = subst (λ x. seen x false c ≡ some a) e h in
    ground (arith, same)

module _ (has : String → String → Bool) (scope : Scope) (i : PollNewMessagesInput) (cursor : ℕ)
    (started : ℕ) (rounds : ℕ → Round) (parse_int : String → Option ℤ) where
  -- The rounds as the tool sees them, over the scoped store.
  abbrev pub scoped : ℕ → Round
  scoped n = record (rounds n) { store = scoped_store has scope (rounds n).store }

  -- What the store answers in a round, before the scope.
  abbrev pub unscoped : ℕ → Answer (List MessageRow × ℕ)
  unscoped n =
      (rounds n).store.messages_after_rowid "" cursor i.include_own (pos (clamp_limit i.limit))

  polled-empty :
      scope.active ≡ true
      → i.chat_jid ≡ ""
      → (n : ℕ) → Hides scope (unscoped n)
      → (next : ℕ) × (polled i cursor (scoped n) ≡ ok ([], next))
  unfolding polled scoped_store
  polled-empty active every n h =
      let (next, e) = page-empty scope (unscoped n) active h in
      let l : ℤ = pos (clamp_limit i.limit) in
      let whole : Answer (List MessageRow × ℕ) = mapped (readable_page scope) (unscoped n) in
      let one : String → Answer (List MessageRow × ℕ) =
        λ jid. (rounds n).store.messages_after_rowid jid cursor i.include_own l in
      (next, subst (λ jid. narrowed scope jid (one jid) whole ≡ ok ([], next)) (sym every) e)

  round-empty :
      (n next : ℕ) (a : Result ToolError PollAnswer) (deadline : ℕ)
      → polled i cursor (scoped n) ≡ ok ([], next)
      → poll_round i second deadline cursor (scoped n) ≡ some a
      → a ≡ ok (nothing_new cursor)
  unfolding poll_round
  round-empty n next a deadline e h =
      seen-empty (polled i cursor (scoped n)) next (is_last second deadline (scoped n)) cursor a e h

  -- While the page after the cursor has messages of chats outside the scope only, however many
  -- messages of readable chats follow it, poll_new_messages over every chat finds nothing and hands
  -- back the cursor it was given, so that the next call reads the same page.
  pub poll_stalls :
      scope.active ≡ true
      → i.chat_jid ≡ ""
      → start_poll parse_int (scoped 0).store i ≡ ok (from cursor)
      → Paced scoped
      → started ≤ (scoped 0).now
      → ((n : ℕ) → Hides scope (unscoped n))
      → poll_new_messages 0 240 started scoped i parse_int ≡ some (ok (nothing_new cursor))
  poll_stalls active every start paced began hidden =
      let (a, e, explained) = poll-Explained started scoped i parse_int paced began in
      let (k, p, _) = subst (λ s. Explained started scoped i s a) start explained in
      let (next, q) = polled-empty active every k (hidden k) in
      e ∙ ground (arith, round-empty k next a _ q p)
