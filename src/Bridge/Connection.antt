-- ===== src/Bridge/Connection.antt =====
-- internal/bridge/bridge.go, status.go and the connection events of events.go: the state of the
-- connection. The clock and what whatsmeow and its session store answer come with each call.
pub mod CatchUp
use whatsapp_connect_mcp.Prelude.{
  ℕ, zero, suc, ◌+◌, ◌/◌, String, Bool, true, false, not, ◌&&◌, ◌||◌, Option, none, some, List, [],
  ◌∷◌, if◌then◌else◌, eqb, ltb, leb, Result, ok, err,
}

-- connState, with its zero value.
pub data Phase : Type 0 where
  unset unpaired offline connecting connected : Phase

abbrev pub same_phase : Phase → Phase → Bool
same_phase unset unset = true
same_phase unpaired unpaired = true
same_phase offline offline = true
same_phase connecting connecting = true
same_phase connected connected = true
same_phase _ _ = false

-- The fields of Bridge that a connection changes. `paired` says whether the device of the current
-- client has an identity; times are milliseconds, or seconds where the code keeps seconds.
pub record Link : Type 0 where
  pub phase : Phase
  pub since : ℕ
  pub last_event_at : ℕ
  pub catch_up_seq : ℕ
  pub connected_seq : ℕ
  pub offline_sync_seq : ℕ
  pub connected_at : ℕ
  pub ever_connected : Bool
  pub reconnects : ℕ
  pub last_disconnect : String
  pub ingest_errors : ℕ
  pub warned : Bool
  pub paired : Bool
  pub handler_registrations : ℕ

-- time.Now().Unix(), of milliseconds.
abbrev pub seconds : ℕ → ℕ
seconds now = now / 1000

unfoldable pub set_state : ℕ → Phase → Link → Link
set_state now p l = record l {
  phase = p;
  since = if same_phase l.phase p then l.since else seconds now;
}

unfoldable pub note_disconnect : String → Link → Link
note_disconnect category l = record l { last_disconnect = category }

-- noteIngest, of a write that failed or not.
unfoldable pub note_ingest : Bool → Link → Link
note_ingest failed l =
    if failed then record l { ingest_errors = suc l.ingest_errors; warned = true } else l

unfoldable pub set_client : Bool → Link → Link
set_client paired l = record l {
  paired = paired;
  handler_registrations = suc l.handler_registrations;
}

abbrev closed : Link
closed = record {
  phase = unset;
  since = 0;
  last_event_at = 0;
  catch_up_seq = 0;
  connected_seq = 0;
  offline_sync_seq = 0;
  connected_at = 0;
  ever_connected = false;
  reconnects = 0;
  last_disconnect = "";
  ingest_errors = 0;
  warned = false;
  paired = false;
  handler_registrations = 0;
}

-- Open, over a device that is paired or not.
unfoldable pub opened : ℕ → Bool → Link
unfolding set_client set_state
opened now paired = set_state now (if paired then offline else unpaired) (set_client paired closed)

-- reinitAfterLogout: `device` is what the session store answers, whether the device it has is
-- paired. Waiting for a new pairing is reload_device and connect, later.
unfoldable pub reinit_after_logout : ℕ → Option Bool → Link → Link
unfolding set_client set_state
reinit_after_logout now none l = l
reinit_after_logout now (some paired) l = set_state now unpaired (set_client paired l)

pub data Event : Type 0 where
  content : Event  -- a message, a receipt, a call and the like, and unknown events
  connects offline_sync_completed stream_replaced disconnects keepalive_timeout : Event
  connect_failure temporary_ban client_outdated : Event
  logged_out : Option Bool → Event

abbrev lost : ℕ → String → Phase → Link → Link
lost now category p l = set_state now p (note_disconnect category l)

abbrev connected_now : ℕ → Link → Link
connected_now now l = set_state now connected (record l {
  connected_at = now;
  catch_up_seq = suc l.catch_up_seq;
  connected_seq = suc l.catch_up_seq;
  ever_connected = true;
  reconnects = if l.ever_connected then suc l.reconnects else l.reconnects;
})

abbrev handled : ℕ → Event → Link → Link
handled now content l = l
handled now connects l = connected_now now l
handled now offline_sync_completed l = record l {
  catch_up_seq = suc l.catch_up_seq;
  offline_sync_seq = suc l.catch_up_seq;
}
handled now (logged_out device) l =
    reinit_after_logout now device (lost now "logged_out" unpaired l)
handled now stream_replaced l = lost now "stream_replaced" offline l
handled now disconnects l = lost now "disconnected" connecting l
handled now keepalive_timeout l = lost now "keepalive_timeout" connecting l
handled now connect_failure l = lost now "connect_failure" offline l
handled now temporary_ban l = lost now "temporary_ban" offline l
handled now client_outdated l = lost now "client_outdated" offline l

-- handleEvent, without what it writes to the message store.
unfoldable pub handle_event : ℕ → Event → Link → Link
unfolding set_state note_disconnect reinit_after_logout
handle_event now e l = handled now e (record l { last_event_at = seconds now })

-- What ConnectContext answers.
pub data Attempt : Type 0 where
  started already_connected : Attempt
  failed : String → Attempt

-- Connect, with connectErr.
unfoldable pub connect : ℕ → Attempt → Link → Result String (Unit {0}) × Link
unfolding set_state
connect now started l = (ok tt, set_state now connecting l)
connect now already_connected l = (ok tt, set_state now connected (set_state now connecting l))
connect now (failed e) l = (err e, set_state now offline (set_state now connecting l))

-- ReloadDevice
unfoldable pub reload_device : ℕ → Option Bool → Link → Result String (Unit {0}) × Link
unfolding set_client set_state
reload_device now device l = if l.paired then (ok tt, l) else elim device [
  | none ↦ (err "reload device", l)
  | some paired ↦ (ok tt, if paired then set_state now offline (set_client true l) else l)
]

-- Logout; `answer` is what the client's Logout answers.
unfoldable pub logout : ℕ → Option String → Option Bool → Link → Result String (Unit {0}) × Link
unfolding set_state note_disconnect reinit_after_logout
logout now answer device l =
    if not l.paired then (err "log out: this install is not paired", l) else elim answer [
      | some e ↦ (err e, l)
      | none ↦ (ok tt, reinit_after_logout now device (lost now "logged_out" unpaired l))
    ]

abbrev pub grace : ℕ
grace = 15_000

-- Whether WaitForCatchUp has something to wait for: connected, and not yet caught up.
unfoldable pub is_catching_up : Link → Bool
is_catching_up l = not (eqb l.connected_seq 0 || ltb l.connected_seq l.offline_sync_seq)

-- What the n-th round of a wait sees: the clock, the connection, and whether its context is done.
pub record View : Type 0 where
  pub now : ℕ
  pub link : Link
  pub cancelled : Bool

abbrev pub is_over : View → Bool
is_over v = not (is_catching_up v.link) || (leb (v.link.connected_at + grace) v.now || v.cancelled)

-- WaitForCatchUp: the round in which it returns, if it does within the fuel.
unfoldable pub wait_for_catch_up : ℕ → (ℕ → View) → ℕ → Option ℕ
wait_for_catch_up zero views n = none
wait_for_catch_up (suc fuel) views n =
    let later = wait_for_catch_up fuel views (suc n) in if is_over (views n) then some n else later
