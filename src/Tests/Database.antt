-- ===== src/Tests/Database.antt =====
-- internal/store on a database of two chats.
use whatsapp_connect_mcp.Prelude.{
  ℕ, String, Bool, true, false, ◌&&◌, none, some, List, [], ◌∷◌, ◌++◌, ◌==◌, ◌≡◌, refl, keep, map,
  if◌then◌else◌,
}
use whatsapp_connect_mcp.Prelude.Int.{pos}
use whatsapp_connect_mcp.Prelude.Dict.{lookup}
use whatsapp_connect_mcp.Prelude.Table.{first, update, delete}
use whatsapp_connect_mcp.Store.Types.{Chat, Message, Stored, Db}
use whatsapp_connect_mcp.Store.Ingest.{is_chat}
use whatsapp_connect_mcp.Store.Ingest.Laws.{Write, apply_all, Carries, writes_carry_chat}
use whatsapp_connect_mcp.Store.Fold.{
  is_lid, fold_lids, fold_chats, fold_chat, fold_senders, fold_sender, fold_contacts, fold_calls,
  distinct, move_messages, bare_lid,
}
use whatsapp_connect_mcp.Store.Fold.Settled.{Settled, fold_lids_settles}
use whatsapp_connect_mcp.Store.Mentions.{mention_name, rewrite_mentions, resolve_mentions}
use whatsapp_connect_mcp.Store.Query.{message_row}
use whatsapp_connect_mcp.Store.Poll.{
  is_polled, past, messages_after_rowid, tail_rowid, poll_partition,
}

abbrev anna_lid : String
anna_lid = "12345678@lid"

abbrev pub anna : String
anna = "4366@s.whatsapp.net"

abbrev pub message : String → String → String → Message
message chat id text = record {
  chat_jid = chat;
  id = id;
  sender_jid = chat;
  from_me = false;
  ts = pos 10;
  kind = "text";
  text = text;
  quoted_id = "";
  media_ref = none;
  media_filename = "";
}

abbrev row : ℕ → Message → Stored
row n m = record { rowid = n; message = m; read_at = pos 0 }

abbrev lid_chat : Chat
lid_chat = record {
  jid = anna_lid;
  name = "Anna";
  is_group = false;
  archived = false;
  last_message_at = pos 10;
}

abbrev pub two : Db
two = record {
  chats = lid_chat ∷ [];
  messages = row 1 (message anna_lid "a" "hi") ∷ row 2 (message anna "b" "@12345678 there") ∷ [];
  contacts =
      record { jid = anna; phone = "4366"; push_name = "Anna"; full_name = ""; business_name = "" }
      ∷ [];
  calls = [];
  lid_map = (anna_lid, anna) ∷ [];
}

abbrev resolve : String → String
resolve jid = if jid == anna_lid then anna else ""

folded : (fold_lids resolve two).1.messages ≡ 2
unfolding fold_lids fold_chats fold_chat fold_senders fold_sender fold_contacts fold_calls distinct
    move_messages bare_lid is_lid delete update
folded = refl

mention : resolve_mentions two "hello @12345678!" ≡ "hello @Anna!"
unfolding resolve_mentions rewrite_mentions mention_name lookup first
mention = refl

no_mention : resolve_mentions two "anna@12345678" ≡ "anna@12345678"
unfolding resolve_mentions rewrite_mentions mention_name lookup first
no_mention = refl

tail : tail_rowid two "" true (pos 1) ≡ 1
unfolding tail_rowid
tail = refl

phone_or_none : (known : Bool) → is_lid (if known then anna else "") ≡ false
unfolding is_lid
phone_or_none true = refl
phone_or_none false = refl

fold_lids_settles_example : Settled resolve two (fold_lids resolve two).0
fold_lids_settles_example = fold_lids_settles resolve (λ l. phone_or_none (l == anna_lid)) two

abbrev writes : List Write
writes = Write.message (message anna "c" "new") ∷ Write.chat anna_lid "" false (pos 5) ∷ []

writes_carry_chat_example :
    (c' : Chat) × (first (is_chat anna_lid) (apply_all writes two).chats ≡ some c')
    × Carries lid_chat c'
unfolding first
writes_carry_chat_example = writes_carry_chat writes two anna_lid lid_chat refl

poll_partition_example :
    map (message_row two) (keep (λ m. past 0 m && is_polled "" false m) two.messages)
    ≡ (messages_after_rowid two "" 0 false (pos 1)).0
      ++ map (message_row two) (
          keep
            (λ m. past (messages_after_rowid two "" 0 false (pos 1)).1 m && is_polled "" false m)
            two.messages)
poll_partition_example = poll_partition two "" 0 false (pos 1) ((refl, tt), (tt, tt))
