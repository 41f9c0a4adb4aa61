-- ===== src/Tools/Schedules/Guarded.antt =====
-- scheduleSend of internal/mcpserv/sched_tools.go behind the gate of the schedules.
use whatsapp_connect_mcp.Prelude.{
  true, Bool, if◌then◌else◌, ℕ, String, false, Option, ◌==◌, ◌≡◌, refl, Result, ok, err, arith,
}
use whatsapp_connect_mcp.Prelude.Int.{ℤ}
use whatsapp_connect_mcp.Access.ScopedStore.{StoreApi}
use whatsapp_connect_mcp.Gate.Types.{Delivery, SendResult, Error, Limiter, State}
use whatsapp_connect_mcp.Gate.Render.{Codec}
use whatsapp_connect_mcp.Gate.Ops.{Moment, always_drafts, ask}
use whatsapp_connect_mcp.Schedule.Admission.{Desk, store_deliverer, schedule_needs_confirmation}
use whatsapp_connect_mcp.Tools.Send.{Host, Request, validate_local_file}
use whatsapp_connect_mcp.Tools.Calls.{naming, Unsent, checked-Unsent}
use whatsapp_connect_mcp.Tools.Schedules.{
  timed_content, Times, resolve_fire_at, ScheduleSendInput, schedule_request, schedule_send,
  handled, rendered,
}

if-Unsent :
    (m : Moment) (b : Bool) (r r' : Request)
    → Unsent m r
    → Unsent m r'
    → Unsent m (if b then r else r')
if-Unsent m true r r' h h' = h
if-Unsent m false r r' h h' = h'

timed-Unsent :
    (host : Host) (m : Moment) (i : ScheduleSendInput) (at : Result String ℤ)
    → i.draft_token ≡ ""
    → ask false m.trusted i.to ≡ false
    → Unsent m (timed_content host i at)
unfolding always_drafts
timed-Unsent host m i (err e) blank untrusted = tt
timed-Unsent host m i (ok at) blank untrusted =
    if-Unsent m _ _ _
      (checked-Unsent m (validate_local_file host i.path "media file") _
        (blank, ground (arith, untrusted)))
      (if-Unsent m (host.trim_space i.text == "") _ _ tt (blank, ground (arith, untrusted)))

module _ {L : Type 0} (validate_content : Delivery → Option String) (limits : Limiter L)
    (per_seconds : ℕ) (codec : Codec) (times : Times) (host : Host) (st : StoreApi) where
  store-rendered : {S : Type 0} (p : Result Error SendResult × S) → (rendered p).1 ≡ p.1
  store-rendered (ok r, s) = refl
  store-rendered (err e, s) = refl

  handled-Unsent :
      (m : Moment) (r : Request) (s : State Desk L)
      → Unsent m r
      → (handled
          (store_deliverer codec validate_content)
          limits
          per_seconds
          codec
          times
          host
          st
          m
          r
          s).1.world.store
        ≡ s.world.store
  handled-Unsent m (err e) s h = refl
  handled-Unsent m (ok (d, t)) s (blank, guarded) =
      rw (blank, store-rendered)
        (schedule_needs_confirmation codec validate_content limits per_seconds (naming st m) d s
          guarded)

-- schedule_send adds nothing to the schedules, without a draft token for a
-- recipient that is not trusted, whatever its other arguments are.
pub schedule_send_guarded :
    {L : Type 0} (validate_content : Delivery → Option String) (limits : Limiter L)
    (per_seconds : ℕ) (codec : Codec) (times : Times) (host : Host) (st : StoreApi) (m : Moment)
    (i : ScheduleSendInput) (s : State Desk L)
    → i.draft_token ≡ ""
    → ask false m.trusted i.to ≡ false
    → (schedule_send
        (store_deliverer codec validate_content)
        limits
        per_seconds
        codec
        times
        host
        st
        m
        i
        s).1.world.store
      ≡ s.world.store
unfolding schedule_send schedule_request
schedule_send_guarded validate_content limits per_seconds codec times host st m i s blank
      untrusted =
    handled-Unsent validate_content limits per_seconds codec times host st m
      (schedule_request times host m.now i) s
      (timed-Unsent host m i (resolve_fire_at times i.send_at i.delay_minutes m.now) blank
        untrusted)
