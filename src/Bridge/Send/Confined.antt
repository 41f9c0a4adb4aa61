-- ===== src/Bridge/Send/Confined.antt =====
-- What Deliver of internal/bridge/send.go reads, and what it records.
use whatsapp_connect_mcp.Prelude.{
  String, Bool, true, false, not, Option, none, some, ◌∷◌, ◌==◌, ◌≡◌, ◌⊎◌, refl, if◌then◌else◌, ltb,
  length, Result, ok, err, arith, Bool-cases, inl, inr,
}
use whatsapp_connect_mcp.Prelude.Int.{ℤ, pos, ltb_ℤ}
use whatsapp_connect_mcp.Prelude.Text.{base}
use whatsapp_connect_mcp.Gate.Types.{Delivery, items}
use whatsapp_connect_mcp.Tools.Banner.{starts}
use whatsapp_connect_mcp.Tools.Send.{ext, equal_fold}
use whatsapp_connect_mcp.Bridge.Addresses.{Addresses, Session}
use whatsapp_connect_mcp.Bridge.Ingest.{Host}
use whatsapp_connect_mcp.Bridge.Outbound.{
  media, voice, text, edit, poll, revoke, reaction, Client, Disk, World, Request, Outgoing,
  MediaType, validate_poll, Failure, FileFailure, sends, uploads, blocks, unblocks, marks,
}
use whatsapp_connect_mcp.Bridge.Send.{
  send_media_file, send_voice_file, mime_type, media_of, Done, to, reading, parse_recipient,
  transmit, upload_and_send, deliver_blocklist, deliver_poll, deliver_edit, deliver_revoke,
  deliver_text, deliver_media, deliver_voice, deliver_reaction, deliver_read, deliver,
  record_outbound, asked, parsed, transmitted, uploaded, opened, settled, checked,
}

module _ {J : Type 0} (a : Addresses J) (host : Host) (session : Session J) (client : Client J)
    (disk : Disk) (now : ℤ) (marking_fails : Bool) (d : Delivery) (w : World J) where
  -- Nothing is read, or the file of the delivery, which is allowed; and nothing is written yet.
  pub record IsUnrecorded (v : World J) : Type 0 where
    pub read : (v.reads ≡ w.reads) ⊎ ((v.reads ≡ d.path ∷ w.reads) × (disk.allows d.path ≡ true))
    pub unwritten : v.writes ≡ w.writes

  pub record IsConfined (p : Result String String × World J) : Type 0 where
    pub read :
        (p.1.reads ≡ w.reads) ⊎ ((p.1.reads ≡ d.path ∷ w.reads) × (disk.allows d.path ≡ true))
    pub quiet : (e : String) → p.0 ≡ err e → p.1.writes ≡ w.writes

  untouched : IsUnrecorded w
  untouched = record { read = inl refl; unwritten = refl }

  refused : (v : World J) (e : String) → IsUnrecorded v → IsConfined (err e, v)
  refused v e u = record { read = u.read; quiet = λ _ _. u.unwritten }

  asked-IsUnrecorded :
      (v : World J) (r : Request J)
      → IsUnrecorded v
      → IsUnrecorded (asked a host session client disk now marking_fails r v)
  asked-IsUnrecorded v r u = record { read = u.read; unwritten = u.unwritten }

  if-IsConfined :
      (b : Bool) (p q : Result String String × World J)
      → IsConfined p
      → IsConfined q
      → IsConfined (if b then p else q)
  if-IsConfined true p q h k = h
  if-IsConfined false p q h k = k

  parsed-IsConfined :
      (o : Option J) (v : World J) (k : J → Done a host session client disk now marking_fails)
      → IsUnrecorded v
      → ((j : J) → IsConfined (k j))
      → IsConfined (parsed a host session client disk now marking_fails o v k)
  parsed-IsConfined none v k u h = refused v _ u
  parsed-IsConfined (some j) v k u h = h j

  transmitted-IsConfined :
      (op : String) (recorded : Bool) (j : J) (m : Outgoing J) (v : World J)
      (r : Result Failure (String × ℤ))
      → IsUnrecorded v
      → IsConfined (transmitted a host session client disk now marking_fails op recorded j m v r)
  unfolding record_outbound
  transmitted-IsConfined op recorded j m v (err f) u = refused v _ u
  transmitted-IsConfined op true j m v (ok (id, at)) u = record {
    read = u.read;
    quiet = λ e h. ground arith;
  }
  transmitted-IsConfined op false j m v (ok (id, at)) u = record {
    read = u.read;
    quiet = λ e h. ground arith;
  }

  transmit-IsConfined :
      (op : String) (recorded : Bool) (j : J) (m : Outgoing J) (v : World J)
      → IsUnrecorded v
      → IsConfined (transmit a host session client disk now marking_fails op recorded j m v)
  unfolding transmit
  transmit-IsConfined op recorded j m v u =
      transmitted-IsConfined op recorded j m _ (client.send_message j m)
        (asked-IsUnrecorded v (sends j m) u)

  uploaded-IsConfined :
      (j : J) (build : String → Outgoing J) (v : World J) (r : Result Failure String)
      → IsUnrecorded v
      → IsConfined (uploaded a host session client disk now marking_fails j build v r)
  uploaded-IsConfined j build v (err f) u = refused v _ u
  uploaded-IsConfined j build v (ok up) u = transmit-IsConfined "send media" true j (build up) v u

  upload_and_send-IsConfined :
      (j : J) (type : MediaType) (content : String) (build : String → Outgoing J) (v : World J)
      → IsUnrecorded v
      → IsConfined
          (upload_and_send a host session client disk now marking_fails j type content build v)
  unfolding upload_and_send
  upload_and_send-IsConfined j type content build v u =
      uploaded-IsConfined j build _ (client.upload type content)
        (asked-IsUnrecorded v (uploads type content) u)

  opened-IsConfined :
      (op : String) (v : World J)
      (k : String → World J → Done a host session client disk now marking_fails)
      (r : Result FileFailure String)
      → IsUnrecorded v
      → ((c : String) → IsConfined (k c v))
      → IsConfined (opened a host session client disk now marking_fails op v k r)
  opened-IsConfined op v k (err f) u h = refused v _ u
  opened-IsConfined op v k (ok c) u h = h c

  reading-IsConfined :
      (op : String) (k : String → World J → Done a host session client disk now marking_fails)
      → ((c : String) (v : World J) → IsUnrecorded v → IsConfined (k c v))
      → IsConfined (reading a host session client disk now marking_fails op d.path w k)
  reading-IsConfined op k h = elim (Bool-cases (disk.allows d.path)) [
    | inr e ↦ rw e (refused w _ untouched)
    | inl e ↦
        let v : World J = record w { reads = d.path ∷ w.reads } in
        let u : IsUnrecorded v = record { read = inr (refl, e); unwritten = refl } in
        rw e (opened-IsConfined op v k (disk.read_file d.path) u (λ c. h c v u))
  ]

  settled-IsConfined :
      (op : String) (v : World J) (p : Result String String × World J) (o : Option Failure)
      → IsUnrecorded v
      → IsConfined p
      → IsConfined (settled a host session client disk now marking_fails op v p o)
  settled-IsConfined op v p (some f) u h = refused v _ u
  settled-IsConfined op v p none u h = h

  checked-IsConfined :
      (o : Option String) (p : Result String String × World J)
      → IsConfined p
      → IsConfined (checked a host session client disk now marking_fails o w p)
  checked-IsConfined (some e) p h = refused w e untouched
  checked-IsConfined none p h = h

  -- The recipients that cannot be parsed, for each kind.
  to-IsConfined :
      (s : String) (k : J → Done a host session client disk now marking_fails)
      → ((j : J) → IsConfined (k j))
      → IsConfined (to a host session client disk now marking_fails s w k)
  to-IsConfined s k h =
      parsed-IsConfined (parse_recipient a host session client disk now marking_fails s) w k
        untouched h

  deliver_text-IsConfined :
      IsConfined (deliver_text a host session client disk now marking_fails d w)
  unfolding deliver_text
  deliver_text-IsConfined =
      to-IsConfined _ _
        (λ j. transmit-IsConfined "send message" true j (text d.text d.quoted_id) w untouched)

  deliver_edit-IsConfined :
      IsConfined (deliver_edit a host session client disk now marking_fails d w)
  unfolding deliver_edit
  deliver_edit-IsConfined = to-IsConfined _ _ (λ j.
      if-IsConfined (d.quoted_id == "") _ _ (refused w _ untouched)
        (transmit-IsConfined "edit message" false j (edit j d.quoted_id d.text) w untouched))

  deliver_poll-IsConfined :
      IsConfined (deliver_poll a host session client disk now marking_fails d w)
  unfolding deliver_poll
  deliver_poll-IsConfined = checked-IsConfined (validate_poll host d) _ (
      to-IsConfined _ _ (λ j.
        let selectable = if ltb_ℤ d.selectable_count (pos 1) then pos 1 else d.selectable_count in
        transmit-IsConfined "create poll" true j (poll d.text (items d.options) selectable) w
          untouched))

  deliver_revoke-IsConfined :
      IsConfined (deliver_revoke a host session client disk now marking_fails d w)
  unfolding deliver_revoke
  deliver_revoke-IsConfined = to-IsConfined _ _ (λ j.
      if-IsConfined (d.quoted_id == "") _ _ (refused w _ untouched) (
        if-IsConfined (d.author == "") _ _
          (transmit-IsConfined "delete message" false j (revoke j a.empty d.quoted_id) w untouched)
          (to-IsConfined _ _ (λ sender.
            transmit-IsConfined "delete message" false j (revoke j sender d.quoted_id) w
              untouched))))

  deliver_reaction-IsConfined :
      IsConfined (deliver_reaction a host session client disk now marking_fails d w)
  unfolding deliver_reaction
  deliver_reaction-IsConfined = to-IsConfined _ _ (λ j.
      if-IsConfined (d.quoted_id == "") _ _ (refused w _ untouched) (
        if-IsConfined (d.author == "") _ _ (refused w _ untouched) (
          to-IsConfined _ _ (λ author.
            transmit-IsConfined "send reaction" true j (reaction j author d.quoted_id d.text) w
              untouched))))

  deliver_blocklist-IsConfined :
      (b : Bool) → IsConfined (deliver_blocklist a host session client disk now marking_fails b d w)
  unfolding deliver_blocklist
  deliver_blocklist-IsConfined b = to-IsConfined _ _ (λ j.
      let u = asked-IsUnrecorded w (if b then blocks j else unblocks j) untouched in
      settled-IsConfined _ _ _ (client.update_blocklist j b) u
        (record { read = u.read; quiet = λ e h. ground arith }))

  deliver_read-IsConfined :
      IsConfined (deliver_read a host session client disk now marking_fails d w)
  unfolding deliver_read
  deliver_read-IsConfined = to-IsConfined _ _ (λ j.
      if-IsConfined (not (ltb 0 (length (items d.message_ids)))) _ _ (refused w _ untouched) (
        if-IsConfined (d.author == "") _ _ (refused w _ untouched) (
          to-IsConfined _ _ (λ sender.
            let u = asked-IsUnrecorded w (marks (items d.message_ids) j sender) untouched in
            settled-IsConfined _ _ _ (client.mark_read (items d.message_ids) j sender) u (
              if-IsConfined marking_fails _ _ (refused _ _ u)
                (record { read = inl refl; quiet = λ e h. ground arith }))))))

  send_media_file-IsConfined :
      (j : J) (c : String) (v : World J)
      → IsUnrecorded v
      → IsConfined (send_media_file a host session client disk now marking_fails d j c v)
  unfolding send_media_file
  send_media_file-IsConfined j c v u =
      let mimetype = mime_type a host session client disk now marking_fails d.path c in
      let type = media_of a host session client disk now marking_fails mimetype in
      upload_and_send-IsConfined j type c (media type d.text mimetype (base d.path)) v u

  deliver_media-IsConfined :
      IsConfined (deliver_media a host session client disk now marking_fails d w)
  unfolding deliver_media
  deliver_media-IsConfined = to-IsConfined _ _ (λ j.
      reading-IsConfined "read media file"
        (send_media_file a host session client disk now marking_fails d j)
        (send_media_file-IsConfined j))

  send_voice_file-IsConfined :
      (j : J) (c : String) (v : World J)
      → IsUnrecorded v
      → IsConfined (send_voice_file a host session client disk now marking_fails j c v)
  unfolding send_voice_file
  send_voice_file-IsConfined j c v u =
      if-IsConfined (not (starts "OggS" c)) _ _ (refused v "voice notes must be Ogg Opus (.ogg)" u)
        (upload_and_send-IsConfined j voice c (media voice "" "audio/ogg; codecs=opus" "") v u)

  deliver_voice-IsConfined :
      IsConfined (deliver_voice a host session client disk now marking_fails d w)
  unfolding deliver_voice
  deliver_voice-IsConfined =
      if-IsConfined (not (equal_fold (ext d.path) ".ogg")) _ _ (refused w _ untouched) (
        to-IsConfined _ _ (λ j.
          reading-IsConfined "read voice file"
            (send_voice_file a host session client disk now marking_fails j)
            (send_voice_file-IsConfined j)))

  -- Whatever Deliver is given and whatever fails, it reads at most one file, the one of the
  -- delivery, and only where its path is allowed. A delivery that answers an error has written
  -- nothing to the store.
  pub deliver-IsConfined : IsConfined (deliver a host session client disk now marking_fails d w)
  unfolding deliver
  deliver-IsConfined = if-IsConfined (d.kind == "text") _ _ deliver_text-IsConfined (
      if-IsConfined (d.kind == "media") _ _ deliver_media-IsConfined (
        if-IsConfined (d.kind == "voice") _ _ deliver_voice-IsConfined (
          if-IsConfined (d.kind == "reaction") _ _ deliver_reaction-IsConfined (
            if-IsConfined (d.kind == "edit") _ _ deliver_edit-IsConfined (
              if-IsConfined (d.kind == "revoke") _ _ deliver_revoke-IsConfined (
                if-IsConfined (d.kind == "poll") _ _ deliver_poll-IsConfined (
                  if-IsConfined (d.kind == "block") _ _ (deliver_blocklist-IsConfined true) (
                    if-IsConfined (d.kind == "unblock") _ _ (deliver_blocklist-IsConfined false) (
                      if-IsConfined (d.kind == "read") _ _ deliver_read-IsConfined
                        (refused w _ untouched))))))))))
