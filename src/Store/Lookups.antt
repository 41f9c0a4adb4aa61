-- ===== src/Store/Lookups.antt =====
-- internal/store/query.go: the queries for contacts, calls, single messages, media and counts.
use whatsapp_connect_mcp.Prelude.{
  ℕ, String, Bool, true, false, ◌&&◌, ◌||◌, Option, none, some, List, [], ◌∷◌, ◌==◌, keep, take,
  length, map, Result, ok, err,
}
use whatsapp_connect_mcp.Prelude.Int.{ℤ, ltb_ℤ, eqb_ℤ}
use whatsapp_connect_mcp.Prelude.Table.{first}
use whatsapp_connect_mcp.Prelude.Text.{text_le}
use whatsapp_connect_mcp.Prelude.Sorting.{sort_by}
use whatsapp_connect_mcp.Store.Types.{Stored, Contact, CallLog, Db}
use whatsapp_connect_mcp.Store.Rows.{MessageRow, ContactRow, CallRow, clamp_limit}
use whatsapp_connect_mcp.Store.Ingest.{is_contact, is_message}
use whatsapp_connect_mcp.Store.Query.{
  Engine, contact_name_or, raw_row, message_row, newest_first, oldest_first, in_window, chat_or_all,
  QueryError, message_not_found, no_media, row_of,
}

abbrev contact_row : Contact → ContactRow
contact_row c = record { jid = c.jid; phone = c.phone; name = contact_name_or c.jid (some c) }

unfoldable pub search_contacts : Engine → Db → String → ℤ → List ContactRow
search_contacts e db query limit =
    let shown =
      keep
        (λ c.
          query == ""
          || (e.like c.full_name query
              || (e.like c.push_name query
                  || (e.like c.business_name query || e.like c.phone query))))
        db.contacts in
    take (clamp_limit limit) (sort_by (λ a b. text_le a.name b.name) (map contact_row shown))

abbrev pub head : {A : Type 0} → List A → Option A
head [] = none
head (x ∷ xs) = some x

-- The newest message of the chat `jid`, or that the sender `jid` sent in any chat.
unfoldable pub last_interaction : Db → String → Option MessageRow
last_interaction db jid =
    row_of (message_row db)
      (head (newest_first (keep (λ m. m.chat_jid == jid || m.sender_jid == jid) db.messages)))

-- The text is as it was stored.
unfoldable pub oldest_message : Db → String → Option MessageRow
oldest_message db jid =
    row_of (raw_row db) (head (oldest_first (keep (λ m. m.chat_jid == jid) db.messages)))

unfoldable pub count_messages_older_than : Db → String → ℤ → ℕ
count_messages_older_than db jid ts =
    length (keep (λ m. m.chat_jid == jid && ltb_ℤ m.ts ts) db.messages)

abbrev call_row : Db → CallLog → CallRow
call_row db c = record {
  id = c.id;
  peer_jid = c.peer_jid;
  peer_name = contact_name_or c.peer_jid (first (is_contact c.peer_jid) db.contacts);
  direction = c.direction;
  status = c.status;
  ts = c.ts;
  is_video = c.is_video;
}

abbrev call_at_or_before : CallLog → CallLog → Bool
call_at_or_before a b = ltb_ℤ a.ts b.ts || (eqb_ℤ a.ts b.ts && text_le a.id b.id)

unfoldable pub calls : Db → String → ℤ → ℤ → ℤ → List CallRow
calls db peer before after limit =
    let shown = keep (λ c. chat_or_all peer c.peer_jid && in_window before after c.ts) db.calls in
    map (call_row db) (take (clamp_limit limit) (sort_by (λ a b. call_at_or_before b a) shown))

abbrev has_media : Stored → Bool
has_media m = elim m.media_ref [ none ↦ false | some r ↦ true ]

unfoldable pub media_message_ids : Db → String → ℤ → ℤ → String → ℤ → List String
media_message_ids db jid before after kind limit =
    map (λ m. m.id)
      (take (clamp_limit limit) (
        newest_first (
          keep
            (λ m.
              m.chat_jid == jid
              && (has_media m && ((kind == "" || m.kind == kind) && in_window before after m.ts)))
            db.messages)))

-- The reference, the file name and the kind.
unfoldable pub message_media_ref :
    Db → String → String → Result QueryError (String × (String × String))
message_media_ref db jid id = elim (first (is_message jid id) db.messages) [
  | none ↦ err message_not_found
  | some m ↦ elim m.media_ref [ none ↦ err no_media | some r ↦ ok (r, (m.media_filename, m.kind)) ]
]

pub record Counts : Type 0 where
  pub chats : ℕ
  pub messages : ℕ
  pub contacts : ℕ
  pub calls : ℕ

unfoldable pub counts : Db → Counts
counts db = record {
  chats = length db.chats;
  messages = length db.messages;
  contacts = length db.contacts;
  calls = length db.calls;
}
