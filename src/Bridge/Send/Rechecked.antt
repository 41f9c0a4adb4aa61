-- ===== src/Bridge/Send/Rechecked.antt =====
-- What Deliver of internal/bridge/send.go makes of a delivery that Validate refuses.
use whatsapp_connect_mcp.Prelude.{
  String, Bool, true, false, not, Option, none, some, ◌==◌, ◌≡◌, refl, if◌then◌else◌, Result, err,
  arith, eq_iff, subst, Bool-cases, inl, inr,
}
use whatsapp_connect_mcp.Prelude.Int.{ℤ}
use whatsapp_connect_mcp.Gate.Types.{Delivery}
use whatsapp_connect_mcp.Tools.Send.{ext, equal_fold}
use whatsapp_connect_mcp.Bridge.Addresses.{Addresses, Session}
use whatsapp_connect_mcp.Bridge.Ingest.{Host}
use whatsapp_connect_mcp.Bridge.Outbound.{Client, Disk, World, outside, validate_poll, validate}
use whatsapp_connect_mcp.Bridge.Send.{
  Done, parsed, reading, parse_recipient, deliver_poll, deliver_media, deliver_voice,
  send_media_file, send_voice_file, deliver,
}

module _ {J : Type 0} (a : Addresses J) (host : Host) (session : Session J) (client : Client J)
    (disk : Disk) (now : ℤ) (marking_fails : Bool) (d : Delivery) (w : World J) where
  abbrev IsRefused : Result String String × World J → Type 0
  IsRefused p = (p.1 ≡ w) × (e : String) × (p.0 ≡ err e)

  if-IsRefused :
      (b : Bool) (p q : Result String String × World J)
      → IsRefused p
      → IsRefused q
      → IsRefused (if b then p else q)
  if-IsRefused true p q h k = h
  if-IsRefused false p q h k = k

  parsed-IsRefused :
      (o : Option J) (k : J → Done a host session client disk now marking_fails)
      → ((j : J) → IsRefused (k j))
      → IsRefused (parsed a host session client disk now marking_fails o w k)
  parsed-IsRefused none k h = (refl, _, refl)
  parsed-IsRefused (some j) k h = h j

  reading-IsRefused :
      (op : String) (k : String → World J → Done a host session client disk now marking_fails)
      → disk.allows d.path ≡ false
      → IsRefused (reading a host session client disk now marking_fails op d.path w k)
  reading-IsRefused op k h = rw h (refl, outside, refl)

  media-IsRefused :
      disk.allows d.path ≡ false
      → IsRefused (deliver_media a host session client disk now marking_fails d w)
  unfolding deliver_media
  media-IsRefused h =
      parsed-IsRefused (parse_recipient a host session client disk now marking_fails d.to) _ (λ j.
        reading-IsRefused "read media file"
          (send_media_file a host session client disk now marking_fails d j) h)

  voice-IsRefused :
      disk.allows d.path ≡ false
      → IsRefused (deliver_voice a host session client disk now marking_fails d w)
  unfolding deliver_voice
  voice-IsRefused h =
      if-IsRefused (not (equal_fold (ext d.path) ".ogg")) _ _
        (refl, "voice notes must be Ogg Opus (.ogg)", refl)
        (parsed-IsRefused (parse_recipient a host session client disk now marking_fails d.to) _
          (λ j.
            reading-IsRefused "read voice file"
              (send_voice_file a host session client disk now marking_fails j) h))

  poll-IsRefused :
      {e : String}
      → validate_poll host d ≡ some e
      → IsRefused (deliver_poll a host session client disk now marking_fails d w)
  unfolding deliver_poll
  poll-IsRefused {e} h = rw h (refl, e, refl)

  -- What Validate refuses, Deliver refuses too, although it is not told: it reads no file, asks
  -- nothing of the client and writes nothing.
  pub deliver-IsRefused :
      {e : String}
      → validate host disk d ≡ some e
      → IsRefused (deliver a host session client disk now marking_fails d w)
  unfolding validate deliver
  deliver-IsRefused {e} h = elim (Bool-cases (d.kind == "media")) [
    | inl m ↦
        let kind : d.kind ≡ "media" = (eq_iff d.kind "media").0 m in
        let same : deliver_media a host session client disk now marking_fails d w
            ≡ deliver a host session client disk now marking_fails d w =
          rw kind refl in
        subst IsRefused same (media-IsRefused (ground (arith, h, m)))
    | inr nm ↦ elim (Bool-cases (d.kind == "voice")) [
      | inl v ↦
          let kind : d.kind ≡ "voice" = (eq_iff d.kind "voice").0 v in
          let same : deliver_voice a host session client disk now marking_fails d w
              ≡ deliver a host session client disk now marking_fails d w =
            rw kind refl in
          subst IsRefused same (voice-IsRefused (ground (arith, h, v)))
      | inr nv ↦ elim (Bool-cases (d.kind == "poll")) [
        | inl p ↦
            let kind : d.kind ≡ "poll" = (eq_iff d.kind "poll").0 p in
            let same : deliver_poll a host session client disk now marking_fails d w
                ≡ deliver a host session client disk now marking_fails d w =
              rw kind refl in
            subst IsRefused same (poll-IsRefused {e = e} (ground (arith, h, nm, nv, p)))
        | inr np ↦ absurd (ground (arith, h, nm, nv, np))
      ]
    ]
  ]
