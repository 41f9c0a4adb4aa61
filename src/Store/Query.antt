-- ===== src/Store/Query.antt =====
-- internal/store/query.go: what the read tools and the dashboard ask of the database. A query that
-- the database itself refuses is not modelled; LIKE, the full-text index and strings.TrimSpace are
-- parameters. ORDER BY rowid is the order of the table.
use whatsapp_connect_mcp.Prelude.{
  ℕ, String, Bool, true, false, not, ◌&&◌, ◌||◌, Option, none, some, List, [], ◌∷◌, ◌++◌, ◌==◌,
  keep, take, map, if◌then◌else◌, Result, ok, err,
}
use whatsapp_connect_mcp.Prelude.Int.{ℤ, pos, leb_ℤ, ltb_ℤ, eqb_ℤ}
use whatsapp_connect_mcp.Prelude.Dict.{lookup}
use whatsapp_connect_mcp.Prelude.Table.{first}
use whatsapp_connect_mcp.Prelude.Text.{text_le, text_lt}
use whatsapp_connect_mcp.Prelude.Sorting.{sort_by}
use whatsapp_connect_mcp.Store.Types.{Chat, Stored, Contact, Db, or_else}
use whatsapp_connect_mcp.Store.Rows.{ChatRow, MessageRow, clamp_limit, clamp_context}
use whatsapp_connect_mcp.Store.Ingest.{is_chat, is_contact, is_message}
use whatsapp_connect_mcp.Store.Mentions.{resolve_mentions}

-- `like text query` is LIKE '%query%', `matches text query` MATCH of ftsPhrase(query).
pub record Engine : Type 0 where
  pub like : String → String → Bool
  pub matches : String → String → Bool
  pub trim_space : String → String

abbrev pub contact_name_or : String → Option Contact → String
contact_name_or fallback none = fallback
contact_name_or fallback (some c) =
    or_else c.full_name (or_else c.push_name (or_else c.business_name fallback))

abbrev or_text : String → Option String → String
or_text fallback none = fallback
or_text fallback (some t) = t

abbrev phone_contact : Db → Option String → Option Contact
phone_contact db none = none
phone_contact db (some pn) = first (is_contact pn) db.contacts

-- contactNameCase over the contact of `jid`, and that of the phone its lid_map row points at.
unfoldable pub display_name : Db → String → String → String
display_name db jid fallback =
    let pn = lookup jid db.lid_map in
    contact_name_or (contact_name_or (or_text fallback pn) (phone_contact db pn))
      (first (is_contact jid) db.contacts)

abbrev is_some : {A : Type 0} → Option A → Bool
is_some none = false
is_some (some x) = true

-- messageSelect, without the rewriting of mentions.
abbrev pub raw_row : Db → Stored → MessageRow
raw_row db m = record {
  chat_jid = m.chat_jid;
  id = m.id;
  sender_jid = m.sender_jid;
  sender_name = display_name db m.sender_jid m.sender_jid;
  from_me = m.from_me;
  ts = m.ts;
  kind = m.kind;
  text = m.text;
  quoted_id = m.quoted_id;
  has_media = is_some m.media_ref;
}

abbrev pub message_row : Db → Stored → MessageRow
message_row db m = record (raw_row db m) { text = resolve_mentions db m.text }

-- chatSelect
abbrev pub chat_row : Db → Chat → ChatRow
chat_row db c = record {
  jid = c.jid;
  name = or_else c.name (display_name db c.jid "");
  is_group = c.is_group;
  archived = c.archived;
  last_message_at = c.last_message_at;
}

-- The order (ts, id) of the queries.
abbrev pub at_or_before : Stored → Stored → Bool
at_or_before a b = ltb_ℤ a.ts b.ts || (eqb_ℤ a.ts b.ts && text_le a.id b.id)

abbrev pub oldest_first : List Stored → List Stored
oldest_first ms = sort_by at_or_before ms

abbrev pub newest_first : List Stored → List Stored
newest_first ms = sort_by (λ a b. at_or_before b a) ms

abbrev pub reverse : {A : Type 0} → List A → List A
reverse [] = []
reverse (x ∷ xs) = reverse xs ++ (x ∷ [])

-- The bounds that are left out at 0.
abbrev pub in_window : ℤ → ℤ → ℤ → Bool
in_window before after ts =
    (not (ltb_ℤ (pos 0) before) || ltb_ℤ ts before) && (not (ltb_ℤ (pos 0) after) || ltb_ℤ after ts)

abbrev pub chat_or_all : String → String → Bool
chat_or_all wanted jid = wanted == "" || jid == wanted

unfoldable pub chats : Engine → Db → String → Bool → ℤ → List ChatRow
chats e db query archived limit =
    let shown =
      keep (λ c. (query == "" || e.like c.name query) && (archived || not c.archived)) db.chats in
    map (chat_row db)
      (take (clamp_limit limit) (sort_by (λ a b. leb_ℤ b.last_message_at a.last_message_at) shown))

abbrev pub row_of : {A B : Type 0} → (A → B) → Option A → Option B
row_of f none = none
row_of f (some x) = some (f x)

unfoldable pub chat : Db → String → Option ChatRow
chat db jid = row_of (chat_row db) (first (is_chat jid) db.chats)

unfoldable pub messages : Db → String → ℤ → ℤ → ℤ → List MessageRow
messages db jid before after limit = map (message_row db) (
    take (clamp_limit limit)
      (newest_first (keep (λ m. m.chat_jid == jid && in_window before after m.ts) db.messages)))

unfoldable pub recent_messages : Db → String → ℤ → List MessageRow
recent_messages db jid limit =
    map (message_row db) (
      reverse (take (clamp_limit limit) (newest_first (keep (λ m. m.chat_jid == jid) db.messages))))

-- m.ts > ts OR (m.ts = ts AND m.id > id), and its mirror.
abbrev pub is_after : ℤ → String → Stored → Bool
is_after ts id m = ltb_ℤ ts m.ts || (eqb_ℤ m.ts ts && text_lt id m.id)

abbrev pub is_before : ℤ → String → Stored → Bool
is_before ts id m = ltb_ℤ m.ts ts || (eqb_ℤ m.ts ts && text_lt m.id id)

abbrev pub rows_after : Db → String → ℤ → String → ℕ → List Stored
rows_after db jid ts id n =
    take n (oldest_first (keep (λ m. m.chat_jid == jid && is_after ts id m) db.messages))

abbrev pub rows_before : Db → String → ℤ → String → ℕ → List Stored
rows_before db jid ts id n =
    reverse (take n (newest_first (keep (λ m. m.chat_jid == jid && is_before ts id m) db.messages)))

unfoldable pub messages_since : Db → String → ℤ → String → ℤ → List MessageRow
messages_since db jid ts id limit =
    map (message_row db) (rows_after db jid ts id (clamp_limit limit))

unfoldable pub messages_before : Db → String → ℤ → String → ℤ → List MessageRow
messages_before db jid ts id limit =
    map (message_row db) (rows_before db jid ts id (clamp_limit limit))

pub data QueryError : Type 0 where
  query_required message_not_found no_media : QueryError

unfoldable pub search_messages :
    Engine → Db → String → String → ℤ → Result QueryError (List MessageRow)
search_messages e db query jid limit =
    if e.trim_space query == ""
    then err query_required
    else ok (
        map (message_row db) (
          take (clamp_limit limit) (
            newest_first
              (keep (λ m. e.matches m.text query && chat_or_all jid m.chat_jid) db.messages))))

-- The message `m` with the rows around it.
abbrev pub context_of : Db → String → ℤ → ℤ → Option Stored → Result QueryError (List MessageRow)
context_of db jid before after none = err message_not_found
context_of db jid before after (some m) = ok (
    map (message_row db) (
      rows_before db jid m.ts m.id (clamp_context before)
      ++ (m ∷ rows_after db jid m.ts m.id (clamp_context after))))

unfoldable pub message_context : Db → String → String → ℤ → ℤ → Result QueryError (List MessageRow)
message_context db jid id before after =
    context_of db jid before after (first (is_message jid id) db.messages)
