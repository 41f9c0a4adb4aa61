-- ===== src/Bridge/Outbound.antt =====
-- internal/bridge/send.go and bridge.go: what a delivery is made of, what it can fail with, and
-- Validate. whatsmeow's client, the files and the MIME tables are parameters.
use Prim.Native.String.{◌++◌ as concat}
use whatsapp_connect_mcp.Prelude.{
  String, Bool, true, ◌||◌, Option, none, some, List, ◌==◌, if◌then◌else◌, ltb, length, Result,
}
use whatsapp_connect_mcp.Prelude.Int.{ℤ, pos, ltb_ℤ}
use whatsapp_connect_mcp.Prelude.Dict.{Dict}
use whatsapp_connect_mcp.Gate.Types.{Delivery, items}
use whatsapp_connect_mcp.Store.Ingest.Laws.{Write}
use whatsapp_connect_mcp.Bridge.Content
use whatsapp_connect_mcp.Bridge.Ingest.{Host}

-- The errors of whatsmeow that waErr tells apart, and those of files.
pub data Failure : Type 0 where
  cancelled not_connected not_reachable other : Failure

pub data FileFailure : Type 0 where
  missing no_permission unreadable : FileFailure

unfoldable pub wa_err_category : String → Failure → String
wa_err_category op cancelled = concat op ": timed out"
wa_err_category op not_connected = concat op ": not connected to WhatsApp"
wa_err_category op not_reachable = concat op ": recipient not found or not reachable"
wa_err_category op other = concat op ": WhatsApp request failed"

abbrev pub unpaired_or : Bool → String → Failure → String
unpaired_or true op not_connected =
    concat op ": this install is no longer paired — run `whatsapp-connect-mcp setup` to pair again"
unpaired_or paired op f = wa_err_category op f

unfoldable pub file_err : String → FileFailure → String
file_err op missing = concat op ": file not found"
file_err op no_permission = concat op ": permission denied"
file_err op unreadable = concat op ": file error"

pub data MediaType : Type 0 where
  image video document voice : MediaType

-- The messages that Deliver builds.
pub data Outgoing (J : Type 0) : Type 0 where
  text : String → String → Outgoing J  -- the body, and the quoted id or ""
  media : MediaType → String → String → String → String → Outgoing J  -- caption, type, name, upload
  reaction : J → J → String → String → Outgoing J
  edit : J → String → String → Outgoing J
  revoke : J → J → String → Outgoing J
  poll : String → List String → ℤ → Outgoing J

-- What a delivery asks of the client.
pub data Request (J : Type 0) : Type 0 where
  sends : J → Outgoing J → Request J
  uploads : MediaType → String → Request J
  blocks unblocks : J → Request J
  marks : List String → J → J → Request J

pub record Client (J : Type 0) : Type 0 where
  pub needs_pairing : Bool
  pub own : Option J
  pub send_message : J → Outgoing J → Result Failure (String × ℤ)
  pub upload : MediaType → String → Result Failure String
  pub update_blocklist : J → Bool → Option Failure
  pub mark_read : List String → J → J → Option Failure
  pub wire : Outgoing J → Content.Message

pub record Disk : Type 0 where
  pub read_file : String → Result FileFailure String
  pub allows : String → Bool
  pub type_by_extension : String → String
  pub detect_content_type : String → String

-- What deliveries have done so far, the newest first, and the store's side of it.
pub record World (J : Type 0) : Type 0 where
  pub reads : List String
  pub requests : List (Request J)
  pub writes : List Write
  pub cache : Dict J

-- validatePoll
unfoldable pub validate_poll : Host → Delivery → Option String
validate_poll host d =
    if host.trim_space d.text == ""
    then some "poll requires a question"
    else if ltb (length (items d.options)) 2
    then some "poll requires at least two options"
    else if ltb_ℤ (pos (length (items d.options))) d.selectable_count
    then some "poll allows choosing more options than it offers"
    else none

abbrev pub outside : String
outside = "file is outside the directories this server may send from"

-- Validate
unfoldable pub validate : Host → Disk → Delivery → Option String
unfolding validate_poll
validate host disk d =
    if d.kind == "media" || d.kind == "voice"
    then (if disk.allows d.path then none else some outside)
    else if d.kind == "poll"
    then validate_poll host d
    else none
