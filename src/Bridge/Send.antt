-- ===== src/Bridge/Send.antt =====
-- internal/bridge/send.go: Deliver. What a delivery reads, asks of the client and writes to the store
-- is recorded in the world that it leaves.
pub mod Confined
pub mod Rechecked
use Prim.Native.String.{◌++◌ as concat}
use whatsapp_connect_mcp.Prelude.{
  ℕ, String, Bool, true, false, not, ◌&&◌, ◌||◌, Option, none, some, List, [], ◌∷◌, ◌++◌, ◌==◌,
  if◌then◌else◌, ltb, length, Result, ok, err,
}
use whatsapp_connect_mcp.Prelude.Int.{ℤ, pos, ltb_ℤ}
use whatsapp_connect_mcp.Prelude.Text.{base, before}
use whatsapp_connect_mcp.Prelude.Dict.{Dict}
use whatsapp_connect_mcp.Gate.Types.{Delivery, items}
use whatsapp_connect_mcp.Store.Ingest.Laws.{Write}
use whatsapp_connect_mcp.Tools.Banner.{starts}
use whatsapp_connect_mcp.Tools.Send.{ext, equal_fold}
use whatsapp_connect_mcp.Bridge.Addresses.{Addresses, Session}
use whatsapp_connect_mcp.Bridge.Content
use whatsapp_connect_mcp.Bridge.Ingest.{Host, MessageEvent, ingest_message}
use whatsapp_connect_mcp.Bridge.Outbound.{
  Failure, cancelled, not_connected, not_reachable, other, FileFailure, missing, no_permission,
  unreadable, wa_err_category, unpaired_or, file_err, MediaType, image, video, document, voice,
  Outgoing, text, media, reaction, edit, revoke, poll, Request, sends, uploads, blocks, unblocks,
  marks, Client, Disk, World, validate_poll, outside, validate,
}

module _ {J : Type 0} (a : Addresses J) (host : Host) (session : Session J) (client : Client J)
    (disk : Disk) (now : ℤ) (marking_fails : Bool) where
  abbrev pub Done : Type 0
  Done = Result String String × World J

  unfoldable pub wa_err : String → Failure → String
  unfolding wa_err_category
  wa_err op f = unpaired_or client.needs_pairing op f

  abbrev usable : J → Option J
  usable j = if a.user j == "" then none else some j

  -- parseRecipient
  unfoldable pub parse_recipient : String → Option J
  parse_recipient s = elim (a.parse s) [ none ↦ none | some j ↦ usable j ]

  abbrev pub parsed : Option J → World J → (J → Done) → Done
  parsed none w k = (err "invalid recipient", w)
  parsed (some j) w k = k j

  -- The early return on a recipient that cannot be parsed.
  abbrev pub to : String → World J → (J → Done) → Done
  to s w k = parsed (parse_recipient s) w k

  abbrev asked : Request J → World J → World J
  asked r w = record w { requests = r ∷ w.requests }

  abbrev own_sender : Option J → J
  own_sender none = a.empty
  own_sender (some own) = a.to_non_ad own

  -- recordOutbound
  unfoldable pub record_outbound : J → String → ℤ → Outgoing J → World J → World J
  record_outbound chat id at m w =
      let (ws, c) =
        ingest_message a host session
          (record {
            source = record {
              chat = chat;
              sender = own_sender client.own;
              sender_alt = a.empty;
              recipient_alt = a.empty;
              is_from_me = true;
              is_group = a.server chat == a.group_server;
            };
            id = id;
            push_name = "";
            at = at;
            message = client.wire m;
          })
          w.cache in
      record w { writes = w.writes ++ ws; cache = c }

  abbrev pub transmitted :
      String → Bool → J → Outgoing J → World J → Result Failure (String × ℤ) → Done
  transmitted op recorded chat m w (err f) = (err (wa_err op f), w)
  transmitted op recorded chat m w (ok (id, at)) =
      (ok id, if recorded then record_outbound chat id at m w else w)

  -- SendMessage, and what follows it; edits and revokes are not recorded.
  unfoldable pub transmit : String → Bool → J → Outgoing J → World J → Done
  unfolding record_outbound wa_err
  transmit op recorded chat m w =
      transmitted op recorded chat m (asked (sends chat m) w) (client.send_message chat m)

  abbrev pub uploaded : J → (String → Outgoing J) → World J → Result Failure String → Done
  uploaded chat build w (err f) = (err (wa_err "upload media" f), w)
  uploaded chat build w (ok up) = transmit "send media" true chat (build up) w

  unfoldable pub upload_and_send : J → MediaType → String → (String → Outgoing J) → World J → Done
  unfolding transmit wa_err
  upload_and_send chat type content build w =
      uploaded chat build (asked (uploads type content) w) (client.upload type content)

  abbrev pub settled : String → World J → Done → Option Failure → Done
  settled op w done (some f) = (err (wa_err op f), w)
  settled op w done none = done

  unfoldable pub deliver_blocklist : Bool → Delivery → World J → Done
  unfolding wa_err
  deliver_blocklist blocking d w = to d.to w λ j.
      let sent = asked (if blocking then blocks j else unblocks j) w in
      settled "update block list" sent (ok "", sent) (client.update_blocklist j blocking)

  abbrev pub checked : Option String → World J → Done → Done
  checked (some e) w done = (err e, w)
  checked none w done = done

  unfoldable pub deliver_poll : Delivery → World J → Done
  unfolding transmit validate_poll
  deliver_poll d w = checked (validate_poll host d) w (
      to d.to w λ j.
        let selectable = if ltb_ℤ d.selectable_count (pos 1) then pos 1 else d.selectable_count in
        transmit "create poll" true j (poll d.text (items d.options) selectable) w)

  unfoldable pub deliver_edit : Delivery → World J → Done
  unfolding transmit
  deliver_edit d w = to d.to w λ j.
      if d.quoted_id == ""
      then (err "edit requires a target message id", w)
      else transmit "edit message" false j (edit j d.quoted_id d.text) w

  abbrev author_or_empty : String → World J → (J → Done) → Done
  author_or_empty author w k = if author == "" then k a.empty else to author w k

  unfoldable pub deliver_revoke : Delivery → World J → Done
  unfolding transmit
  deliver_revoke d w = to d.to w λ j.
      if d.quoted_id == ""
      then (err "delete requires a target message id", w)
      else author_or_empty d.author w
          (λ sender. transmit "delete message" false j (revoke j sender d.quoted_id) w)

  unfoldable pub deliver_text : Delivery → World J → Done
  unfolding transmit
  deliver_text d w = to d.to w λ j. transmit "send message" true j (text d.text d.quoted_id) w

  abbrev pub media_of : String → MediaType
  media_of mimetype =
      if starts "image/" mimetype
      then image
      else if starts "video/" mimetype
      then video
      else document

  -- readFile: the type of a file that has been read.
  unfoldable pub mime_type : String → String → String
  mime_type path content =
      let known = disk.type_by_extension (ext path) in
      let found = if known == "" then disk.detect_content_type content else known in
      host.trim_space (before b';' found)

  abbrev pub opened :
      String → World J → (String → World J → Done) → Result FileFailure String → Done
  opened op w k (err f) = (err (file_err op f), w)
  opened op w k (ok content) = k content w

  -- A file is read only behind the test of its path.
  abbrev pub reading : String → String → World J → (String → World J → Done) → Done
  reading op path w k =
      if not (disk.allows path)
      then (err outside, w)
      else opened op (record w { reads = path ∷ w.reads }) k (disk.read_file path)

  unfoldable pub send_media_file : Delivery → J → String → World J → Done
  unfolding upload_and_send mime_type
  send_media_file d j content w =
      let mimetype = mime_type d.path content in
      let type = media_of mimetype in
      upload_and_send j type content (media type d.text mimetype (base d.path)) w

  unfoldable pub deliver_media : Delivery → World J → Done
  unfolding send_media_file
  deliver_media d w = to d.to w λ j. reading "read media file" d.path w (send_media_file d j)

  unfoldable pub send_voice_file : J → String → World J → Done
  unfolding upload_and_send
  send_voice_file j content w =
      if not (starts "OggS" content)
      then (err "voice notes must be Ogg Opus (.ogg)", w)
      else upload_and_send j voice content (media voice "" "audio/ogg; codecs=opus" "") w

  unfoldable pub deliver_voice : Delivery → World J → Done
  unfolding send_voice_file
  deliver_voice d w =
      if not (equal_fold (ext d.path) ".ogg")
      then (err "voice notes must be Ogg Opus (.ogg)", w)
      else to d.to w λ j. reading "read voice file" d.path w (send_voice_file j)

  unfoldable pub deliver_reaction : Delivery → World J → Done
  unfolding transmit
  deliver_reaction d w = to d.to w λ j.
      if d.quoted_id == ""
      then (err "reaction requires a target message id", w)
      else if d.author == ""
      then (err "reaction requires the target message author", w)
      else to d.author w
          λ author. transmit "send reaction" true j (reaction j author d.quoted_id d.text) w

  abbrev marked : Delivery → World J → Done
  marked d w = if marking_fails then (err "update local read state", w) else (
    ok "",
    record w { writes = w.writes ++ (Write.reads d.to (items d.message_ids) now ∷ []) },
  )

  unfoldable pub deliver_read : Delivery → World J → Done
  unfolding wa_err
  deliver_read d w = to d.to w λ j.
      if not (ltb 0 (length (items d.message_ids)))
      then (err "mark_read requires at least one message id", w)
      else if d.author == ""
      then (err "read receipt requires the sender", w)
      else to d.author w λ sender.
        let sent = asked (marks (items d.message_ids) j sender) w in
        settled "mark read" sent (marked d sent) (client.mark_read (items d.message_ids) j sender)

  -- Deliver
  unfoldable pub deliver : Delivery → World J → Done
  deliver d w =
      if d.kind == "text"
      then deliver_text d w
      else if d.kind == "media"
      then deliver_media d w
      else if d.kind == "voice"
      then deliver_voice d w
      else if d.kind == "reaction"
      then deliver_reaction d w
      else if d.kind == "edit"
      then deliver_edit d w
      else if d.kind == "revoke"
      then deliver_revoke d w
      else if d.kind == "poll"
      then deliver_poll d w
      else if d.kind == "block"
      then deliver_blocklist true d w
      else if d.kind == "unblock"
      then deliver_blocklist false d w
      else if d.kind == "read"
      then deliver_read d w
      else (err (concat "unknown delivery kind \"" (concat d.kind "\"")), w)
