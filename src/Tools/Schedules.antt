-- ===== src/Tools/Schedules.antt =====
-- internal/mcpserv/sched_tools.go: the tools that schedule a send, list what is pending and cancel
-- it. strconv.ParseInt and time.Parse of RFC 3339, to Unix seconds, are parameters.
pub mod Delays
pub mod Guarded
use Prim.Native.String.{◌++◌}
use whatsapp_connect_mcp.Prelude.{
  ℕ, zero, suc, ◌+◌, ◌-◌, ◌*◌, ◌/◌, ◌%◌, ◌^◌, ◌≤◌, ◌<◌, String, Bool, true, false, not, ◌&&◌, ◌||◌,
  Option, none, some, List, [], ◌∷◌, ◌==◌, ◌≡◌, refl, if◌then◌else◌, Result, ok, err, arith, map,
  ltb, Result-cases, Option-cases, Bool-cases, inl, inr,
}
use whatsapp_connect_mcp.Prelude.Int.{to_int64, ℤ, pos, negsuc, sub_ℕ}
use whatsapp_connect_mcp.Prelude.Text.{join}
use whatsapp_connect_mcp.Access.ScopedStore.{StoreApi}
use whatsapp_connect_mcp.Gate.Types.{
  Delivery, delivery, SendResult, Error, Deliverer, Limiter, State, second,
}
use whatsapp_connect_mcp.Gate.Render.{Codec}
use whatsapp_connect_mcp.Gate.Ops.{Moment, ask, submit}
use whatsapp_connect_mcp.Gate.Trust.{must_confirm}
use whatsapp_connect_mcp.Schedule.Store.{Store, Entry, StoreError, list, remove_id}
use whatsapp_connect_mcp.Schedule.Admission.{Desk, store_deliverer, schedule_needs_confirmation}
use whatsapp_connect_mcp.Tools.Banner.{banner}
use whatsapp_connect_mcp.Tools.Send.{
  ToolError, refused, bad_argument, Host, Request, checked, validate_local_file,
}
use whatsapp_connect_mcp.Tools.Calls.{naming}

pub record Times : Type 0 where
  pub parse_int : String → Option ℤ
  pub parse_rfc3339 : String → Option ℤ

abbrev pub minute : ℕ
minute = 60 * second

-- Time.Unix of a number of nanoseconds: rounded down.
abbrev pub unix : ℤ → ℤ
unix (pos n) = pos (n / second)
unix (negsuc n) = negsuc (n / second)

abbrev add_ns : ℕ → ℤ → ℤ
add_ns now (pos n) = pos (now + n)
add_ns now (negsuc n) = sub_ℕ now (n + 1)

abbrev timed : Times → String → Result String ℤ
timed times send_at = elim (times.parse_int send_at) [
  | some t ↦ ok t
  | none ↦ elim (times.parse_rfc3339 send_at) [
    | some t ↦ ok t
    | none ↦
        err
          "send_at is not a recognized time: use RFC 3339 (e.g. 2026-08-19T08:00:00+05:30) or Unix seconds"
  ]
]

-- resolveFireAt; `now` is in nanoseconds.
unfoldable pub resolve_fire_at : Times → String → ℤ → ℕ → Result String ℤ
unfolding to_int64
resolve_fire_at times send_at (pos zero) now =
    if send_at == ""
    then err "give a fire time: send_at (RFC 3339 or unix seconds) or delay_minutes"
    else timed times send_at
resolve_fire_at times send_at (pos (suc n)) now =
    if not (send_at == "")
    then err "use exactly one of send_at and delay_minutes"
    else ok (unix (add_ns now (to_int64 (suc n * minute))))
resolve_fire_at times send_at (negsuc delay) now =
    if not (send_at == "")
    then err "use exactly one of send_at and delay_minutes"
    else err "delay_minutes must be positive"

pub record ScheduleSendInput : Type 0 where
  pub to : String
  pub text : String
  pub path : String
  pub send_at : String
  pub delay_minutes : ℤ
  pub draft_token : String

abbrev pub scheduled_content : Host → ScheduleSendInput → ℤ → Request
scheduled_content host i at =
    let p : String → Delivery × String = λ kind.
      (record (delivery kind i.to) { text = i.text; path = i.path; fire_at = at }, i.draft_token) in
    if not (i.path == "")
    then checked (validate_local_file host i.path "media file") (p "media")
    else if host.trim_space i.text == ""
    then err (bad_argument "text is required for a text message")
    else ok (p "text")

abbrev pub timed_content : Host → ScheduleSendInput → Result String ℤ → Request
timed_content host i (err e) = err (bad_argument e)
timed_content host i (ok at) = scheduled_content host i at

-- scheduleSend, up to its Submit.
unfoldable pub schedule_request : Times → Host → ℕ → ScheduleSendInput → Request
schedule_request times host now i =
    timed_content host i (resolve_fire_at times i.send_at i.delay_minutes now)

unfoldable pub render_schedule_result : SendResult → String
render_schedule_result r =
    banner r.preview
    ++ (if not r.sent
        then "\ndraft_token: "
          ++ (r.draft_token
              ++ "\nConfirm with the user, then re-issue this call with draft_token to schedule.")
        else "\nscheduled_id: "
          ++ (r.message_id
              ++ "\nDelivers only while the server is running at the fire time; cancel with cancel_scheduled."))

abbrev pub rendered : {S : Type 0} → Result Error SendResult × S → Result ToolError String × S
rendered (ok r, s) = (ok (render_schedule_result r), s)
rendered (err e, s) = (err (refused e), s)

module _ {W L : Type 0} (deliverer : Deliverer W) (limits : Limiter L) (per_seconds : ℕ)
    (codec : Codec) (times : Times) (host : Host) (st : StoreApi) where
  abbrev pub handled : Moment → Request → State W L → Result ToolError String × State W L
  handled m (err e) s = (err e, s)
  handled m (ok (d, t)) s = rendered (submit deliverer limits per_seconds codec (naming st m) d t s)

  unfoldable pub schedule_send :
      Moment → ScheduleSendInput → State W L → Result ToolError String × State W L
  schedule_send m i s = handled m (schedule_request times host m.now i) s

abbrev schedule_row : Codec → Entry → String
schedule_row codec e = e.id ++ ("\t" ++ (codec.rfc3339 e.delivery.fire_at ++ ("\t" ++ e.preview)))

-- listScheduled
unfoldable pub list_scheduled : Codec → Store → String
unfolding list
list_scheduled codec s = elim (list s) [
  | [] ↦ "no scheduled sends"
  | e ∷ es ↦ join "\n" (map (schedule_row codec) (e ∷ es))
]

pub data CancelError : Type 0 where
  write_failed : StoreError → CancelError
  no_such_schedule : CancelError

abbrev cancelled : String → (Bool × Option StoreError) × Store → Result CancelError String × Store
cancelled id ((removed, some e), s) = (err (write_failed e), s)
cancelled id ((false, none), s) = (err no_such_schedule, s)
cancelled id ((true, none), s) = (ok ("cancelled: " ++ id), s)

-- cancelScheduled
unfoldable pub cancel_scheduled : Bool → String → Store → Result CancelError String × Store
unfolding remove_id
cancel_scheduled writable id s = cancelled id (remove_id writable id s)
