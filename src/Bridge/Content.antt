-- ===== src/Bridge/Content.antt =====
-- internal/bridge/events.go: unwrapMessage and decodeMessage, from the payload of a WhatsApp
-- message to the columns of a row. The payload is whatsmeow's; a field stands here for each getter
-- that the code calls. proto.Marshal is a parameter.
pub mod Unwrapping
use Prim.Native.String
use whatsapp_connect_mcp.Prelude.{
  ℕ, zero, suc, String, Bool, true, false, not, ◌&&◌, ◌||◌, Option, none, some, List, [], ◌∷◌, ◌==◌,
  if◌then◌else◌, ltb,
}
use whatsapp_connect_mcp.Prelude.Int.{pos}
use whatsapp_connect_mcp.Prelude.Text.{itoa}

-- A text and the id of the message that it answers.
pub record Quoting : Type 0 where
  pub text : String
  pub stanza_id : String

pub record Audio : Type 0 where
  pub ptt : Bool
  pub seconds : ℕ
  pub stanza_id : String

pub record Document : Type 0 where
  pub caption : String
  pub stanza_id : String
  pub file_name : String

pub record Location : Type 0 where
  pub name : String
  pub address : String

-- A message without the messages inside it. `fields` are the names of the fields that are set.
pub record Payload : Type 0 where
  pub conversation : String
  pub extended_text : Option Quoting
  pub image : Option Quoting
  pub video : Option Quoting
  pub audio : Option Audio
  pub document : Option Document
  pub sticker : Option String
  pub reaction : Option Quoting
  pub contact : Option String
  pub contacts_array : Option String
  pub location : Option Location
  pub live_location : Option String
  pub poll_v1 : Option String
  pub poll_v2 : Option String
  pub poll_v3 : Option String
  pub poll_v5 : Option String
  pub poll_v6 : Option String
  pub poll_update : Bool
  pub group_invite : Option String
  pub ptv : Option ℕ
  pub event : Option String
  pub protocol : Bool
  pub album : Bool
  pub secret_encrypted : Bool
  pub fields : List String

-- The five envelopes: ephemeral, view-once in three versions, and document with caption.
mutual
  pub data Message : Type 0 where
    message : Payload → Envelope → Envelope → Envelope → Envelope → Envelope → Message

  pub data Envelope : Type 0 where
    empty : Envelope
    holds : Message → Envelope

abbrev pub held : Envelope → Option Message
held empty = none
held (holds m) = some m

abbrev pub first_of : {A : Type 0} → Option A → Option A → Option A
first_of (some a) o = some a
first_of none o = o

-- The switch of unwrapMessage.
unfoldable pub inner : Message → Option Message
inner (message p ephemeral once once_v2 once_ext captioned) =
    first_of (held ephemeral)
      (first_of (held once) (first_of (held once_v2) (first_of (held once_ext) (held captioned))))

unfoldable pub peel : ℕ → Message → Message
peel zero m = m
peel (suc n) m = elim (inner m) [ none ↦ m | some i ↦ peel n i ]

abbrev pub rounds : ℕ
rounds = 4

unfoldable pub unwrap_message : Message → Message
unfolding peel
unwrap_message m = peel rounds m

abbrev pub payload : Message → Payload
payload (message p a b c d e) = p

-- pollCreation
unfoldable pub poll_creation : Payload → Option String
poll_creation p =
    first_of p.poll_v1 (first_of p.poll_v2 (first_of p.poll_v3 (first_of p.poll_v5 p.poll_v6)))

-- strings.TrimSuffix(s, "Message")
unfoldable pub trim_message : String → String
trim_message String.[] = String.[]
trim_message (String.◌∷◌ c s) =
    let rest = String.◌∷◌ c (trim_message s) in
    if String.◌∷◌ c s == "Message" then String.[] else rest

abbrev is_sender_key : String → Bool
is_sender_key name =
    name == "senderKeyDistribution" || name == "fastRatchetKeySenderKeyDistribution"

-- The visit of otherKind: the first hint, and the hint of last resort.
unfoldable pub hints : List String → String → String → String × String
unfolding trim_message
hints [] first fallback = (first, fallback)
hints (name ∷ names) first fallback =
    let trimmed = trim_message name in
    let skipped = hints names first fallback in
    let key = hints names first trimmed in
    let found = hints names (if first == "" then trimmed else first) fallback in
    if trimmed == name || trimmed == ""
    then skipped
    else if is_sender_key trimmed
    then key
    else found

unfoldable pub other_kind : Payload → String
unfolding hints
other_kind p =
    let (first, fallback) = hints p.fields "" "" in
    if not (first == "")
    then String.◌++◌ "other:" first
    else if not (fallback == "")
    then String.◌++◌ "other:" fallback
    else "other"

-- What decodeMessage fills in; `media` where it keeps a reference to the message itself.
pub record Decoded : Type 0 where
  pub kind : String
  pub text : String
  pub quoted_id : String
  pub media : Bool
  pub media_filename : String

abbrev pub of_kind : String → Decoded
of_kind kind = record { kind = kind; text = ""; quoted_id = ""; media = false; media_filename = "" }

-- `if s > 0 { m.Text = fmt.Sprintf("duration=%ds", s) }`
abbrev duration : ℕ → String
duration s = if ltb 0 s then String.◌++◌ "duration=" (String.◌++◌ (itoa (pos s)) "s") else ""

abbrev pub case_of : {A : Type 0} → Option A → (A → Decoded) → Option Decoded
case_of none f = none
case_of (some a) f = some (f a)

abbrev pub case_if : Bool → Decoded → Option Decoded
case_if b d = if b then some d else none

abbrev pub quoting : String → Bool → Quoting → Decoded
quoting kind media q = record (of_kind kind) {
  text = q.text;
  quoted_id = q.stanza_id;
  media = media;
}

-- The cases of decodeMessage, in their order.
unfoldable pub cases : (String → String) → Payload → List (Option Decoded)
unfolding poll_creation
cases trim_space p =
    case_if (not (p.conversation == "")) (record (of_kind "text") { text = p.conversation })
    ∷ case_of p.extended_text (quoting "text" false)
    ∷ case_of p.image (quoting "image" true)
    ∷ case_of p.video (quoting "video" true)
    ∷ case_of p.audio (λ a. record (of_kind (if a.ptt then "voice" else "audio")) {
      text = duration a.seconds;
      quoted_id = a.stanza_id;
      media = true;
    })
    ∷ case_of p.document (λ d. record (of_kind "document") {
      text = d.caption;
      quoted_id = d.stanza_id;
      media = true;
      media_filename = d.file_name;
    })
    ∷ case_of p.sticker (λ id. record (of_kind "sticker") { quoted_id = id; media = true })
    ∷ case_of p.reaction (quoting "reaction" false)
    ∷ case_of p.contact (λ name. record (of_kind "contact") { text = name })
    ∷ case_of p.contacts_array (λ name. record (of_kind "contact") { text = name })
    ∷ case_of p.location (λ l. record (of_kind "location") {
      text = trim_space (String.◌++◌ l.name (String.◌++◌ " " l.address));
    })
    ∷ case_of p.live_location (λ caption. record (of_kind "location") { text = caption })
    ∷ case_of (poll_creation p) (λ name. record (of_kind "poll") { text = name })
    ∷ case_if p.poll_update (of_kind "poll_update")
    ∷ case_of p.group_invite (λ name. record (of_kind "group_invite") { text = name })
    ∷ case_of p.ptv (λ s. record (of_kind "video_note") { text = duration s; media = true })
    ∷ case_of p.event (λ name. record (of_kind "event") { text = name })
    ∷ case_if p.protocol (of_kind "system")
    ∷ case_if p.album (of_kind "album")
    ∷ case_if p.secret_encrypted (record (of_kind "view_once") {
      text = "(view-once media — viewable only on the paired phone)";
    })
    ∷ []

unfoldable pub pick : Decoded → List (Option Decoded) → Decoded
pick default [] = default
pick default (none ∷ cs) = pick default cs
pick default (some d ∷ cs) = d

unfoldable pub decode : (String → String) → Payload → Decoded
unfolding pick cases other_kind
decode trim_space p = pick (of_kind (other_kind p)) (cases trim_space p)
