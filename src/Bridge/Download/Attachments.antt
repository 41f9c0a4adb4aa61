-- ===== src/Bridge/Download/Attachments.antt =====
-- decodeMessage against downloadMessage of internal/bridge: which messages can be downloaded.
use whatsapp_connect_mcp.Prelude.{
  String, Bool, true, false, ◌||◌, Option, none, some, Result, ok, err, Option-cases, Bool-cases,
  inl, inr, List, [], ◌∷◌, ◌≡◌, arith, refl,
}
use whatsapp_connect_mcp.Bridge.Content.{
  Payload, Decoded, cases, pick, decode, poll_creation, case_of, case_if,
}
use whatsapp_connect_mcp.Bridge.Outbound.{Failure, FileFailure}
use whatsapp_connect_mcp.Bridge.Addresses.{Addresses}
use whatsapp_connect_mcp.Bridge.Content.{payload, unwrap_message}
use whatsapp_connect_mcp.Bridge.Ingest.{Host, MessageEvent, decode_message}
use whatsapp_connect_mcp.Bridge.Download.{
  Attachment, attachment, sanitize_media_filename, Downloads, Media, written, made, downloaded,
  download_media,
}

abbrev pub has : {A : Type 0} → Option A → Bool
has none = false
has (some a) = true

-- A decoded message with a media reference has an attachment.
abbrev Backed : Payload → Decoded → Type 0
Backed p d = d.media ≡ true → has (attachment p) ≡ true

abbrev EachBacked : Payload → Option Decoded → Type 0
EachBacked p none = Unit
EachBacked p (some d) = Backed p d

abbrev AllBacked : Payload → List (Option Decoded) → Type 0
AllBacked p [] = Unit
AllBacked p (c ∷ cs) = EachBacked p c × AllBacked p cs

infixr 5 ◌▸◌
◌▸◌ : {A B : Type 0} → A → B → A × B
h ▸ k = (h, k)

-- A case that keeps no reference, and one that keeps it for an attachment.
plain_case :
    {A : Type 0} (p : Payload) (o : Option A) (f : A → Decoded)
    → ((a : A) → (f a).media ≡ false)
    → EachBacked p (case_of o f)
plain_case p none f h = tt
plain_case p (some a) f h = λ e. ground (arith, h a, e)

media_case :
    {A : Type 0} (p : Payload) (o : Option A) (f : A → Decoded)
    → (has o ≡ true → has (attachment p) ≡ true)
    → EachBacked p (case_of o f)
media_case p none f h = tt
media_case p (some a) f h = λ e. h refl

plain_if : (p : Payload) (b : Bool) (d : Decoded) → d.media ≡ false → EachBacked p (case_if b d)
plain_if p true d h = λ e. ground (arith, h, e)
plain_if p false d h = tt

pick-Backed :
    (p : Payload) (default : Decoded) (cs : List (Option Decoded))
    → Backed p default
    → AllBacked p cs
    → Backed p (pick default cs)
unfolding pick
pick-Backed p default [] h k = h
pick-Backed p default (none ∷ cs) h k = pick-Backed p default cs h k.1
pick-Backed p default (some d ∷ cs) h k = k.0

-- An attachment of any of the six is found.
found :
    (p : Payload)
    → (has p.image
        || (has p.video || (has p.ptv || (has p.audio || (has p.document || has p.sticker)))))
      ≡ true
    → has (attachment p) ≡ true
unfolding attachment
found p h = ground (arith, h)

-- A payload whose row keeps a media reference has an attachment.
decoded-has :
    (trim_space : String → String) (p : Payload)
    → (decode trim_space p).media ≡ true
    → has (attachment p) ≡ true
unfolding decode cases
decoded-has trim_space p =
    pick-Backed p _ (cases trim_space p) (λ h. ground arith)
      (plain_if p _ _ refl
        ▸ plain_case p p.extended_text _ (λ x. refl)
        ▸ media_case p p.image _ (λ h. found p (ground (arith, h)))
        ▸ media_case p p.video _ (λ h. found p (ground (arith, h)))
        ▸ media_case p p.audio _ (λ h. found p (ground (arith, h)))
        ▸ media_case p p.document _ (λ h. found p (ground (arith, h)))
        ▸ media_case p p.sticker _ (λ h. found p (ground (arith, h)))
        ▸ plain_case p p.reaction _ (λ x. refl)
        ▸ plain_case p p.contact _ (λ x. refl)
        ▸ plain_case p p.contacts_array _ (λ x. refl)
        ▸ plain_case p p.location _ (λ x. refl)
        ▸ plain_case p p.live_location _ (λ x. refl)
        ▸ plain_case p (poll_creation p) _ (λ x. refl)
        ▸ plain_if p p.poll_update _ refl
        ▸ plain_case p p.group_invite _ (λ x. refl)
        ▸ media_case p p.ptv _ (λ h. found p (ground (arith, h)))
        ▸ plain_case p p.event _ (λ x. refl)
        ▸ plain_if p p.protocol _ refl
        ▸ plain_if p p.album _ refl
        ▸ plain_if p p.secret_encrypted _ refl
        ▸ tt)

attachment-some :
    (p : Payload) → has (attachment p) ≡ true → (k : Attachment) × (attachment p ≡ some k)
attachment-some p h = elim (Option-cases (attachment p)) [
  | inl e ↦ absurd (ground (arith, h, e))
  | inr (k, e) ↦ (k, e)
]

module _ (io : Downloads) (dir name : String) where
  written-asked :
      (content : String) (m : Media) (o : Option FileFailure)
      → (written io dir name content m o).1.asked ≡ m.asked
  written-asked content m none = refl
  written-asked content m (some f) = refl

  made-asked :
      (content : String) (m : Media) (o : Option FileFailure)
      → (made io dir name content m o).1.asked ≡ m.asked
  made-asked content m none = written-asked content m (io.write_file dir content)
  made-asked content m (some f) = refl

  downloaded-asked :
      (m : Media) (r : Result Failure String) → (downloaded io dir name m r).1.asked ≡ m.asked
  downloaded-asked m (ok content) = made-asked content m (io.mkdir dir)
  downloaded-asked m (err f) = refl

module _ {J : Type 0} (a : Addresses J) (host : Host) (io : Downloads) where
  decode_message-ref :
      (e : MessageEvent J) {ref : String}
      → (decode_message a host e).media_ref ≡ some ref
      → (has (attachment (payload (unwrap_message e.message))) ≡ true)
        × (host.marshal (unwrap_message e.message) ≡ some ref)
  unfolding decode_message
  decode_message-ref e {ref} h =
      let msg = unwrap_message e.message in
      elim (Bool-cases (decode host.trim_space (payload msg)).media) [
        | inl kept ↦ (decoded-has host.trim_space (payload msg) kept, ground (arith, h, kept))
        | inr none_kept ↦ absurd (ground (arith, h, none_kept))
      ]

  -- A message that decodeMessage gives a media reference, from inside whatever envelopes, can be
  -- downloaded by it: where the reference decodes to what was encoded and the file name is a valid
  -- one, DownloadMedia asks the client for an attachment of the message, exactly once.
  pub decoded_media_downloads :
      (e : MessageEvent J) (dir filename : String) {ref name : String} (m : Media)
      → (host.marshal (unwrap_message e.message) ≡ some ref
          → io.unmarshal ref ≡ some (unwrap_message e.message))
      → (decode_message a host e).media_ref ≡ some ref
      → sanitize_media_filename filename ≡ some name
      → (k : Attachment) × (attachment (payload (unwrap_message e.message)) ≡ some k)
        × ((download_media io ref dir filename m).1.asked ≡ k ∷ m.asked)
  unfolding download_media
  decoded_media_downloads e dir filename {ref} {name} m decodes h valid =
      let msg = unwrap_message e.message in
      let (here, encoded) = decode_message-ref e h in
      let (k, found_here) = attachment-some (payload msg) here in
      let m' : Media = record m { asked = k ∷ m.asked } in
      (
        k,
        found_here,
        rw (decodes encoded, valid, found_here)
            (downloaded-asked io dir name m' (io.download msg k)),
      )
