-- ===== src/Tools/Send.antt =====
-- internal/mcpserv/send_tools.go: the tools that send. Each builds a delivery from its arguments
-- and reaches the bridge only through Submit of the gate. os.Stat and strings.TrimSpace come as
-- parameters, as does the store.
use Prim.Native.Char.{code}
use Prim.Native.String
use whatsapp_connect_mcp.Prelude.{
  ℕ, ◌+◌, String, Bool, true, false, not, ◌&&◌, Option, none, some, List, [], ◌∷◌, ◌==◌,
  if◌then◌else◌, eqb, leb, Result, ok, err, ◌>>=◌,
}
use whatsapp_connect_mcp.Prelude.Int.{ℤ, pos}
use whatsapp_connect_mcp.Prelude.Text.{before, has_char}
use whatsapp_connect_mcp.Store.Rows.{ChatRow, MessageRow, ContactRow, max_limit}
use whatsapp_connect_mcp.Access.ScopedStore.{ReadError, StoreApi, Answer}
use whatsapp_connect_mcp.Gate.Types.{Delivery, delivery, Slice, SendResult, Error}
use whatsapp_connect_mcp.Tools.Banner.{banner}

pub data ToolError : Type 0 where
  refused : Error → ToolError  -- what Submit answered
  unread : ReadError → ToolError  -- what the store answered
  bad_argument : String → ToolError

-- What os.Stat finds.
pub data Found : Type 0 where
  nothing directory file : Found

pub record Host : Type 0 where
  pub stat : String → Found
  pub trim_space : String → String

abbrev sender_of : List MessageRow → Result ToolError String
sender_of [] = err (bad_argument "message not found")
sender_of (m ∷ ms) = ok m.sender_jid

abbrev read : {A : Type 0} → Answer A → Result ToolError A
read (ok a) = ok a
read (err e) = err (unread e)

-- resolveMessageAuthor
unfoldable pub resolve_message_author : StoreApi → String → String → Result ToolError String
resolve_message_author st chat_jid id =
    read (st.message_context chat_jid id (pos 0) (pos 0)) >>= sender_of

abbrev chat_name : Answer (Option ChatRow) → String
chat_name (ok (some c)) = c.name
chat_name _ = ""

abbrev owner_name : String → List ContactRow → String
owner_name jid [] = ""
owner_name jid (c ∷ cs) = if c.jid == jid then c.name else owner_name jid cs

abbrev contact_name : String → Answer (List ContactRow) → String
contact_name jid (ok cs) = owner_name jid cs
contact_name jid (err e) = ""

-- resolveContactName
unfoldable pub resolve_contact_name : StoreApi → String → String
resolve_contact_name st jid =
    let name = chat_name (st.chat jid) in
    let local = before b'@' jid in
    if jid == ""
    then ""
    else if not (name == "")
    then name
    else if local == ""
    then ""
    else contact_name jid (st.search_contacts local (pos max_limit))

abbrev stat_error : String → Found → Option String
stat_error kind nothing = some (String.◌++◌ kind " not found or not readable")
stat_error kind directory = some (String.◌++◌ kind " path is a directory, not a file")
stat_error kind file = none

-- validateLocalFile
unfoldable pub validate_local_file : Host → String → String → Option String
validate_local_file host path kind =
    if host.trim_space path == ""
    then some (String.◌++◌ kind " path is required")
    else stat_error kind (host.stat path)

abbrev pub ext_at : ℕ → String → Option String → String → Option String
ext_at c whole (some e) s = some e
ext_at c whole none s = if eqb c b'.' && not (has_char b'/' s) then some whole else none

abbrev pub ext_from : String → Option String
ext_from String.[] = none
ext_from (String.◌∷◌ c s) = ext_at (code c) (String.◌∷◌ c s) (ext_from s) s

-- filepath.Ext: from the last dot of the last element of the path.
unfoldable pub ext : String → String
ext path = elim (ext_from path) [ none ↦ "" | some e ↦ e ]

abbrev lower : ℕ → ℕ
lower c = if leb b'A' c && leb c b'Z' then c + 32 else c

-- strings.EqualFold, where one of the two has no letter but those of ASCII that fold to no other.
abbrev pub equal_fold : String → String → Bool
equal_fold String.[] String.[] = true
equal_fold String.[] (String.◌∷◌ d t) = false
equal_fold (String.◌∷◌ c s) String.[] = false
equal_fold (String.◌∷◌ c s) (String.◌∷◌ d t) =
    eqb (lower (code c)) (lower (code d)) && equal_fold s t

-- validateVoiceNoteFile
unfoldable pub validate_voice_note_file : Host → String → Option String
unfolding validate_local_file ext
validate_voice_note_file host path = elim (validate_local_file host path "voice note file") [
  | some e ↦ some e
  | none ↦
      if not (equal_fold (ext path) ".ogg")
      then some "voice note file must be an Ogg Opus (.ogg) file"
      else none
]

-- renderSendResult
unfoldable pub render_send_result : SendResult → String
render_send_result r =
    let shown = banner r.preview in
    if not r.sent
    then String.◌++◌ shown (
        String.◌++◌ "\ndraft_token: " (
          String.◌++◌ r.draft_token
            "\nConfirm with the user, then re-issue this call with draft_token to send."))
    else if r.message_id == ""
    then String.◌++◌ shown "\ndone"
    else String.◌++◌ shown (String.◌++◌ "\nmessage_id: " r.message_id)

pub record SendMessageInput : Type 0 where
  pub to : String
  pub text : String
  pub quote_message_id : String
  pub draft_token : String

pub record SendMediaInput : Type 0 where
  pub to : String
  pub path : String
  pub caption : String
  pub draft_token : String

pub record SendVoiceNoteInput : Type 0 where
  pub to : String
  pub path : String
  pub draft_token : String

pub record SendReactionInput : Type 0 where
  pub chat_jid : String
  pub message_id : String
  pub emoji : String
  pub draft_token : String

pub record EditMessageInput : Type 0 where
  pub chat_jid : String
  pub message_id : String
  pub text : String
  pub draft_token : String

pub record DeleteMessageInput : Type 0 where
  pub chat_jid : String
  pub message_id : String
  pub draft_token : String

pub record CreatePollInput : Type 0 where
  pub to : String
  pub question : String
  pub options : Slice
  pub selectable_count : ℤ
  pub draft_token : String

pub record BlockContactInput : Type 0 where
  pub jid : String
  pub draft_token : String

-- What a send tool submits, or why it does not: the part of its handler before Submit.
abbrev pub Request : Type 0
Request = Result ToolError (Delivery × String)

abbrev pub checked : Option String → Delivery × String → Request
checked none d = ok d
checked (some e) d = err (bad_argument e)

unfoldable pub send_message : SendMessageInput → Request
send_message i =
    ok (
      record (delivery "text" i.to) { text = i.text; quoted_id = i.quote_message_id },
      i.draft_token,
    )

unfoldable pub send_media : Host → SendMediaInput → Request
send_media host i =
    checked (validate_local_file host i.path "media file")
      (record (delivery "media" i.to) { path = i.path; text = i.caption }, i.draft_token)

unfoldable pub send_voice_note : Host → SendVoiceNoteInput → Request
send_voice_note host i =
    checked (validate_voice_note_file host i.path)
      (record (delivery "voice" i.to) { path = i.path }, i.draft_token)

unfoldable pub send_reaction : StoreApi → SendReactionInput → Request
send_reaction st i = resolve_message_author st i.chat_jid i.message_id >>= λ author. ok (
  record (delivery "reaction" i.chat_jid) {
    text = i.emoji;
    quoted_id = i.message_id;
    author = author;
  },
  i.draft_token,
)

unfoldable pub edit_message : EditMessageInput → Request
edit_message i =
    ok (
      record (delivery "edit" i.chat_jid) { quoted_id = i.message_id; text = i.text },
      i.draft_token,
    )

unfoldable pub delete_message : StoreApi → DeleteMessageInput → Request
delete_message st i = resolve_message_author st i.chat_jid i.message_id >>= λ author. ok (
  record (delivery "revoke" i.chat_jid) { quoted_id = i.message_id; author = author },
  i.draft_token,
)

unfoldable pub create_poll : CreatePollInput → Request
create_poll i = ok (
  record (delivery "poll" i.to) {
    text = i.question;
    options = i.options;
    selectable_count = i.selectable_count;
  },
  i.draft_token,
)

unfoldable pub block_contact : BlockContactInput → Request
block_contact i = ok (delivery "block" i.jid, i.draft_token)

unfoldable pub unblock_contact : BlockContactInput → Request
unblock_contact i = ok (delivery "unblock" i.jid, i.draft_token)
