-- ===== src/Store/Ingest.antt =====
-- internal/store/ingest.go: the writes that ingesting WhatsApp events makes.
pub mod Laws
use whatsapp_connect_mcp.Prelude.{
  ℕ, zero, suc, ◌+◌, String, Bool, true, false, ◌&&◌, ◌||◌, Option, none, some, List, [], ◌∷◌, ◌==◌,
  contains, if◌then◌else◌, ltb,
}
use whatsapp_connect_mcp.Prelude.Int.{ℤ, pos}
use whatsapp_connect_mcp.Prelude.Dict.{insert}
use whatsapp_connect_mcp.Prelude.Table.{upsert, update}
use whatsapp_connect_mcp.Store.Types.{Chat, Message, Stored, Contact, CallLog, Db, max_ℤ, or_else}

abbrev pub is_chat : String → Chat → Bool
is_chat jid c = c.jid == jid

abbrev pub is_contact : String → Contact → Bool
is_contact jid c = c.jid == jid

abbrev pub is_message : String → String → Stored → Bool
is_message chat_jid id m = m.chat_jid == chat_jid && m.id == id

abbrev pub is_call : String → CallLog → Bool
is_call id c = c.id == id

-- What the conflict clause of UpsertChat makes of the row that is there.
abbrev pub merge_chat : String → Bool → ℤ → Chat → Chat
merge_chat name is_group at c = record c {
  name = or_else name c.name;
  is_group = is_group;
  last_message_at = max_ℤ c.last_message_at at;
}

abbrev pub new_chat : String → String → Bool → ℤ → Chat
new_chat jid name is_group at = record {
  jid = jid;
  name = name;
  is_group = is_group;
  archived = false;
  last_message_at = at;
}

unfoldable pub upsert_chat : String → String → Bool → ℤ → Db → Db
upsert_chat jid name is_group at db = record db {
  chats =
      upsert (is_chat jid) (merge_chat name is_group at) (new_chat jid name is_group at) db.chats;
}

-- SQLite gives a new row the rowid after the largest.
unfoldable pub next_rowid : List Stored → ℕ
next_rowid [] = 1
next_rowid (m ∷ ms) = let n = next_rowid ms in if ltb m.rowid n then n else suc m.rowid

abbrev pub bump : ℤ → Chat → Chat
bump at c = record c { last_message_at = max_ℤ c.last_message_at at }

-- One transaction: the row, keeping read_at and rowid, and then the chat's last_message_at.
unfoldable pub upsert_message : Message → Db → Db
unfolding next_rowid
upsert_message m db = record db {
  messages =
      upsert (is_message m.chat_jid m.id) (λ old. record old { message = m })
        (record { rowid = next_rowid db.messages; message = m; read_at = pos 0 }) db.messages;
  chats = update (is_chat m.chat_jid) (bump m.ts) db.chats;
}

unfoldable pub upsert_contact : String → String → String → String → String → Db → Db
upsert_contact jid phone push full business db = record db {
  contacts =
      upsert (is_contact jid)
        (λ c. record c {
          phone = or_else phone c.phone;
          push_name = or_else push c.push_name;
          full_name = or_else full c.full_name;
          business_name = or_else business c.business_name;
        })
        (record {
          jid = jid;
          phone = phone;
          push_name = push;
          full_name = full;
          business_name = business;
        })
        db.contacts;
}

unfoldable pub upsert_lid_mapping : String → String → Db → Db
upsert_lid_mapping lid pn db =
    if lid == "" || pn == "" then db else record db { lid_map = insert lid pn db.lid_map }

abbrev mark : ℤ → Stored → Stored
mark at m = record m { read_at = max_ℤ m.read_at at }

unfoldable pub mark_read : String → List String → ℤ → Db → Db
mark_read chat_jid [] at db = db
mark_read chat_jid (i ∷ ids) at db = record db {
  messages = update (λ m. m.chat_jid == chat_jid && contains (i ∷ ids) m.id) (mark at) db.messages;
}

unfoldable pub insert_call : CallLog → Db → Db
insert_call c db = record db { calls = upsert (is_call c.id) (λ old. c) c db.calls }
