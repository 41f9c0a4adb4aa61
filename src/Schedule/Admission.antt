-- ===== src/Schedule/Admission.antt =====
-- StoreDeliverer of internal/schedule/schedule.go: the deliverer behind the schedule-time gate,
-- whose "delivery" stores the confirmed entry.
use Prim.Native.String.{◌++◌}
use whatsapp_connect_mcp.Prelude.{
  ℕ, String, Bool, true, not, Option, none, some, [], ◌∷◌, ◌==◌, ◌≡◌, ◌↔◌, if◌then◌else◌, Result,
  ok, err, arith,
}
use whatsapp_connect_mcp.Prelude.Int.{ℤ, pos, ◌+ℤ◌, ltb_ℤ, leb_ℤ, ◌≤ℤ◌}
use mathlib.Core.List.{◌++◌ as append}
use whatsapp_connect_mcp.Prelude.Text.{base}
use whatsapp_connect_mcp.Gate.Types.{Delivery, Deliverer, Limiter, State}
use whatsapp_connect_mcp.Gate.Render.{Codec}
use whatsapp_connect_mcp.Gate.Ops.{Moment, submit}
use whatsapp_connect_mcp.Gate.Trust.{must_confirm, unconfirmed_sends_nothing}
use whatsapp_connect_mcp.Schedule.Store.{
  Store, Entry, StoreError, read_failed, parse_failed, no_randomness, write_failed, add,
}

-- Thirty days, in seconds.
abbrev pub schedule_horizon : ℤ
schedule_horizon = pos 2_592_000

-- The store with what a call of it meets: the clock, the random bytes, the disk.
pub record Desk : Type 0 where
  pub store : Store
  pub now : ℤ
  pub next_id : Option String
  pub writable : Bool

abbrev explain : StoreError → String
explain read_failed = "read schedules"
explain parse_failed = "parse schedules"
explain no_randomness = "schedule id"
explain write_failed = "write schedules"

abbrev stored : Desk → Result StoreError Entry × Store → Result String String × Desk
stored desk (ok e, s) = (ok e.id, record desk { store = s })
stored desk (err x, s) = (err (explain x), record desk { store = s })

module _ (codec : Codec) (validate_content : Delivery → Option String) where
  unfoldable pub summarize : Delivery → String
  unfolding base
  summarize d =
      d.kind
      ++ (" to "
          ++ (d.to
              ++ (" at "
                  ++ (codec.rfc3339 d.fire_at
                      ++ (": "
                          ++ (if not (d.path == "") then base d.path else codec.quote d.text))))))

  unfoldable pub validate : Delivery → Desk → Option String
  unfolding ◌+ℤ◌
  validate d desk =
      if leb_ℤ d.fire_at desk.now
      then some "send_at must be in the future"
      else if ltb_ℤ (desk.now +ℤ schedule_horizon) d.fire_at
      then some "send_at is too far ahead (max 30 days)"
      else validate_content d

  unfoldable pub deliver : Delivery → Desk → Result String String × Desk
  unfolding add summarize
  deliver d desk = stored desk (add desk.writable desk.next_id desk.now d (summarize d) desk.store)

  abbrev pub store_deliverer : Deliverer Desk
  store_deliverer = record { deliver = deliver; validate = validate }

  -- The schedule-time gate admits a delivery exactly when its fire time is later than now, at most
  -- thirty days later, and the live deliverer would take its content.
  pub validate_window :
      (d : Delivery) (desk : Desk)
      → (validate d desk ≡ none) ↔ (
          (desk.now +ℤ pos 1 ≤ℤ d.fire_at)
          × (d.fire_at ≤ℤ desk.now +ℤ schedule_horizon)
          × (validate_content d ≡ none))
  unfolding validate
  validate_window d desk = (λ h. ground arith, λ h. ground arith)

  -- Scheduling goes through the gate: without a token, and to a recipient that must be confirmed,
  -- nothing is added to the schedules.
  pub schedule_needs_confirmation :
      {L : Type 0} (limits : Limiter L) (per_seconds : ℕ) (m : Moment) (d : Delivery)
      (s : State Desk L)
      → must_confirm m d ≡ true
      → (submit store_deliverer limits per_seconds codec m d "" s).1.world.store ≡ s.world.store
  schedule_needs_confirmation limits per_seconds m d s h =
      cc ((unconfirmed_sends_nothing store_deliverer limits per_seconds codec m d s h).0)

  -- A delivery to the schedules that answers an id has put one entry behind the others, with its
  -- content and fire time unchanged, under that id.
  pub deliver_stores :
      (d : Delivery) (desk : Desk) {id : String}
      → (deliver d desk).0 ≡ ok id
      → (desk.next_id ≡ some id)
        × ((deliver d desk).1.store.entries
            ≡ append desk.store.entries
                (record { id = id; delivery = d; preview = summarize d; created = desk.now } ∷ []))
  unfolding deliver
  deliver_stores d desk h = ground arith
