-- ===== src/Tools/Calls.antt =====
-- The send tools of internal/mcpserv/send_tools.go but mark_read, as calls of a server: what the
-- handlers do around Submit.
use whatsapp_connect_mcp.Prelude.{
  ◌>>=◌, ℕ, String, Bool, true, false, not, ◌||◌, some, ◌≡◌, refl, Option, none, Result, ok, err,
  arith,
}
use whatsapp_connect_mcp.Access.ScopedStore.{StoreApi}
use whatsapp_connect_mcp.Gate.Types.{Delivery, SendResult, Error, Deliverer, Limiter, State}
use whatsapp_connect_mcp.Gate.Render.{Codec}
use whatsapp_connect_mcp.Gate.Ops.{Moment, ask, always_drafts, submit}
use whatsapp_connect_mcp.Gate.Trust.{must_confirm, unconfirmed_sends_nothing}
use whatsapp_connect_mcp.Tools.Send.{
  ToolError, refused, Host, Request, SendMessageInput, SendMediaInput, SendVoiceNoteInput,
  SendReactionInput, EditMessageInput, DeleteMessageInput, CreatePollInput, BlockContactInput,
  checked, resolve_contact_name, render_send_result, send_message, send_media, send_voice_note,
  send_reaction, edit_message, delete_message, create_poll, block_contact, unblock_contact,
}

pub data Tool : Type 0 where
  message : SendMessageInput → Tool
  media : SendMediaInput → Tool
  voice_note : SendVoiceNoteInput → Tool
  reaction : SendReactionInput → Tool
  edit : EditMessageInput → Tool
  deletion : DeleteMessageInput → Tool
  poll : CreatePollInput → Tool
  block unblock : BlockContactInput → Tool

unfoldable pub request : Host → StoreApi → Tool → Request
request host st (message i) = send_message i
request host st (media i) = send_media host i
request host st (voice_note i) = send_voice_note host i
request host st (reaction i) = send_reaction st i
request host st (edit i) = edit_message i
request host st (deletion i) = delete_message st i
request host st (poll i) = create_poll i
request host st (block i) = block_contact i
request host st (unblock i) = unblock_contact i

-- The chat or contact that a call is aimed at, and the token that it carries.
abbrev pub recipient : Tool → String
recipient (message i) = i.to
recipient (media i) = i.to
recipient (voice_note i) = i.to
recipient (reaction i) = i.chat_jid
recipient (edit i) = i.chat_jid
recipient (deletion i) = i.chat_jid
recipient (poll i) = i.to
recipient (block i) = i.jid
recipient (unblock i) = i.jid

abbrev pub token : Tool → String
token (message i) = i.draft_token
token (media i) = i.draft_token
token (voice_note i) = i.draft_token
token (reaction i) = i.draft_token
token (edit i) = i.draft_token
token (deletion i) = i.draft_token
token (poll i) = i.draft_token
token (block i) = i.draft_token
token (unblock i) = i.draft_token

abbrev pub is_blocking : Tool → Bool
is_blocking (block i) = true
is_blocking (unblock i) = true
is_blocking _ = false

abbrev pub rendered : {S : Type 0} → Result Error SendResult × S → Result ToolError String × S
rendered (ok r, s) = (ok (render_send_result r), s)
rendered (err e, s) = (err (refused e), s)

-- The names that a preview shows come from the store.
abbrev pub naming : StoreApi → Moment → Moment
naming st m = record m { resolve_name = some (resolve_contact_name st) }

-- A request that Submit must not send at once, if it is one.
abbrev pub Unsent : Moment → Request → Type 0
Unsent m (err e) = Unit
Unsent m (ok (d, t)) = (t ≡ "") × (must_confirm m d ≡ true)

pub checked-Unsent :
    (m : Moment) (o : Option String) (p : Delivery × String)
    → Unsent m (ok p)
    → Unsent m (checked o p)
checked-Unsent m none p h = h
checked-Unsent m (some x) p h = tt

module _ {W L : Type 0} (deliverer : Deliverer W) (limits : Limiter L) (per_seconds : ℕ)
    (codec : Codec) (host : Host) (st : StoreApi) where
  unfoldable pub handle : Moment → Request → State W L → Result ToolError String × State W L
  handle m (err e) s = (err e, s)
  handle m (ok (d, t)) s = rendered (submit deliverer limits per_seconds codec (naming st m) d t s)

  unfoldable pub call_tool : Moment → Tool → State W L → Result ToolError String × State W L
  unfolding handle request
  call_tool m tool s = handle m (request host st tool) s

  state-rendered : {S : Type 0} (p : Result Error SendResult × S) → (rendered p).1 ≡ p.1
  state-rendered (ok r, s) = refl
  state-rendered (err e, s) = refl

  handle-Unsent :
      (m : Moment) (r : Request) (s : State W L)
      → Unsent m r
      → let t = (handle m r s).1 in (t.world ≡ s.world) × (t.limiter ≡ s.limiter)
  unfolding handle
  handle-Unsent m (err e) s h = (refl, refl)
  handle-Unsent m (ok (d, t)) s (blank, guarded) =
      let (world, limiter, _) =
        unconfirmed_sends_nothing deliverer limits per_seconds codec (naming st m) d s guarded in
      rw (blank, state-rendered) (world, limiter)

  author-Unsent :
      (m : Moment) (author : Result ToolError String) (f : String → Delivery × String)
      → ((a : String) → Unsent m (ok (f a)))
      → Unsent m (author >>= λ a. ok (f a))
  author-Unsent m (ok a) f h = h a
  author-Unsent m (err e) f h = tt

  -- A call of a send tool without a draft token, for a recipient that is not trusted, or to block
  -- or unblock anyone, sends nothing and takes no rate token, whatever it answers.
  pub unconfirmed_tool_sends_nothing :
      (m : Moment) (tool : Tool) (s : State W L)
      → token tool ≡ ""
      → is_blocking tool || not (ask false m.trusted (recipient tool)) ≡ true
      → let t = (call_tool m tool s).1 in (t.world ≡ s.world) × (t.limiter ≡ s.limiter)
  unfolding call_tool request send_message send_media send_voice_note send_reaction edit_message
      delete_message create_poll block_contact unblock_contact always_drafts
  unconfirmed_tool_sends_nothing m tool s blank guarded =
      handle-Unsent m (request host st tool) s (unsent tool blank guarded)
    where
      unsent :
          (tool : Tool)
          → token tool ≡ ""
          → is_blocking tool || not (ask false m.trusted (recipient tool)) ≡ true
          → Unsent m (request host st tool)
      unsent (message i) b g = ground (arith, b, g)
      unsent (media i) b g = checked-Unsent m _ _ (ground (arith, b, g))
      unsent (voice_note i) b g = checked-Unsent m _ _ (ground (arith, b, g))
      unsent (reaction i) b g = author-Unsent m _ _ (λ a. ground (arith, b, g))
      unsent (edit i) b g = ground (arith, b, g)
      unsent (deletion i) b g = author-Unsent m _ _ (λ a. ground (arith, b, g))
      unsent (poll i) b g = ground (arith, b, g)
      unsent (block i) b g = ground (arith, b, g)
      unsent (unblock i) b g = ground (arith, b, g)
