-- ===== src/Store/Fold.antt =====
-- internal/store/fold.go: rewriting privacy identities (LIDs) to phone numbers, and dropping stub
-- messages. `resolve` is the bridge's lookup: a bare LID to its bare phone JID, or "".
pub mod Settles
pub mod Messages
pub mod Settled
use Prim.Native.Char.{code}
use Prim.Native.String
use whatsapp_connect_mcp.Prelude.{
  ℕ, ◌+◌, ◌-◌, String, Bool, true, false, not, ◌&&◌, ◌||◌, Option, none, some, List, [], ◌∷◌, ◌==◌,
  keep, contains, length, if◌then◌else◌, eqb, map,
}
use whatsapp_connect_mcp.Prelude.Int.{ℤ}
use whatsapp_connect_mcp.Prelude.Dict.{Dict, insert}
use whatsapp_connect_mcp.Prelude.Text.{before, after, all_digits}
use whatsapp_connect_mcp.Prelude.Table.{upsert, update, delete}
use whatsapp_connect_mcp.Store.Types.{Chat, Message, Stored, Contact, CallLog, Db, max_ℤ, or_else}
use whatsapp_connect_mcp.Store.Ingest.{is_chat, is_contact}

-- … LIKE '%@lid', of identities in lower case
unfoldable pub is_lid : String → Bool
is_lid String.[] = false
is_lid (String.◌∷◌ c s) = String.◌∷◌ c s == "@lid" || is_lid s

abbrev bare_at : String → Option String → String
bare_at jid none = jid
bare_at jid (some server) = String.◌++◌ (before b':' (before b'@' jid)) (String.◌++◌ "@" server)

unfoldable pub bare_lid : String → String
bare_lid jid = bare_at jid (after b'@' jid)

abbrev digits_at : String → Option String → String
digits_at user none = ""
digits_at user (some server) =
    if server == "s.whatsapp.net" && (not (user == "") && all_digits user) then user else ""

unfoldable pub phone_digits : String → String
phone_digits pn = digits_at (before b'@' pn) (after b'@' pn)

pub record FoldStats : Type 0 where
  pub chats : ℕ
  pub messages : ℕ
  pub contacts : ℕ
  pub calls : ℕ

abbrev pub no_stats : FoldStats
no_stats = record { chats = 0; messages = 0; contacts = 0; calls = 0 }

-- The rows that UPDATE or DELETE finds.
abbrev pub count_where {ℓ} : {A : Type ℓ} → (A → Bool) → List A → ℕ
count_where p xs = length (keep p xs)

abbrev pub holds_message : String → String → List Stored → Bool
holds_message chat_jid id [] = false
holds_message chat_jid id (m ∷ ms) =
    (m.chat_jid == chat_jid && m.id == id) || holds_message chat_jid id ms

-- A row of the LID chat that UPDATE OR IGNORE moves: the phone chat has none of its id.
abbrev pub moves : String → String → List Stored → Stored → Bool
moves lid pn all m = m.chat_jid == lid && not (holds_message pn m.id all)

abbrev pub to_chat : String → Stored → Stored
to_chat pn m = record m { message = record m.message { chat_jid = pn } }

-- UPDATE OR IGNORE … SET chat_jid, then DELETE of what was ignored.
unfoldable pub move_messages : String → String → List Stored → List Stored
move_messages lid pn ms = delete (λ m. m.chat_jid == lid) (update (moves lid pn ms) (to_chat pn) ms)

-- What the phone chat takes over from the LID chat.
abbrev pub inherit_chat : Chat → Chat → Chat
inherit_chat c old = record old {
  name = or_else old.name c.name;
  last_message_at = max_ℤ old.last_message_at c.last_message_at;
}

abbrev pub renamed_chat : String → Chat → Chat
renamed_chat pn c = record c { jid = pn; is_group = false }

abbrev pub Folding : Type 0
Folding = Db × FoldStats

unfoldable pub fold_chat : (String → String) → Chat → Folding → Folding
unfolding move_messages
fold_chat resolve c (db, stats) =
    let pn = resolve c.jid in
    if pn == "" then (db, stats) else (
      record db {
        chats =
            delete (is_chat c.jid)
              (upsert (is_chat pn) (inherit_chat c) (renamed_chat pn c) db.chats);
        messages = move_messages c.jid pn db.messages;
        lid_map = insert c.jid pn db.lid_map;
      },
      record stats {
        chats = stats.chats + 1;
        messages = stats.messages + count_where (moves c.jid pn db.messages) db.messages;
      },
    )

unfoldable pub fold_chats : (String → String) → List Chat → Folding → Folding
fold_chats resolve [] f = f
fold_chats resolve (c ∷ cs) f = fold_chats resolve cs (fold_chat resolve c f)

-- SELECT DISTINCT
unfoldable pub distinct : List String → List String
distinct [] = []
distinct (x ∷ xs) = let rest = distinct xs in if contains xs x then rest else x ∷ rest

abbrev pub to_sender : String → Stored → Stored
to_sender pn m = record m { message = record m.message { sender_jid = pn } }

unfoldable pub fold_sender : (String → String) → String → Folding → Folding
unfolding bare_lid
fold_sender resolve sender (db, stats) =
    let bare = bare_lid sender in
    let pn = resolve bare in
    if pn == "" then (db, stats) else (
      record db {
        messages = update (λ m. m.sender_jid == sender) (to_sender pn) db.messages;
        lid_map = insert bare pn (insert sender pn db.lid_map);
      },
      record stats {
        messages = stats.messages + count_where (λ m. m.sender_jid == sender) db.messages;
      },
    )

unfoldable pub fold_senders : (String → String) → List String → Folding → Folding
fold_senders resolve [] f = f
fold_senders resolve (x ∷ xs) f = fold_senders resolve xs (fold_sender resolve x f)

unfoldable pub fold_contact : (String → String) → Contact → Folding → Folding
unfolding bare_lid phone_digits
fold_contact resolve c (db, stats) =
    let pn = resolve (bare_lid c.jid) in
    if pn == "" then (db, stats) else (
      record db {
        contacts = delete (is_contact c.jid) (
            upsert (is_contact pn)
              (λ old. record old {
                phone = or_else old.phone (phone_digits pn);
                push_name = or_else old.push_name c.push_name;
                full_name = or_else old.full_name c.full_name;
                business_name = or_else old.business_name c.business_name;
              })
              (record c { jid = pn; phone = phone_digits pn }) db.contacts);
      },
      record stats { contacts = stats.contacts + 1 },
    )

unfoldable pub fold_contacts : (String → String) → List Contact → Folding → Folding
fold_contacts resolve [] f = f
fold_contacts resolve (c ∷ cs) f = fold_contacts resolve cs (fold_contact resolve c f)

unfoldable pub fold_call : (String → String) → String → Folding → Folding
unfolding bare_lid
fold_call resolve peer (db, stats) =
    let pn = resolve (bare_lid peer) in
    if pn == "" then (db, stats) else (
      record db {
        calls = update (λ x. x.peer_jid == peer) (λ x. record x { peer_jid = pn }) db.calls;
      },
      record stats { calls = stats.calls + count_where (λ x. x.peer_jid == peer) db.calls },
    )

unfoldable pub fold_calls : (String → String) → List String → Folding → Folding
fold_calls resolve [] f = f
fold_calls resolve (x ∷ xs) f = fold_calls resolve xs (fold_call resolve x f)

-- The four passes, each over the LID rows that it finds when it starts.
abbrev pub chat_pass : (String → String) → Folding → Folding
chat_pass resolve f = fold_chats resolve (keep (λ c. is_lid c.jid) f.0.chats) f

abbrev pub sender_pass : (String → String) → Folding → Folding
sender_pass resolve f =
    fold_senders resolve (distinct (keep is_lid (map (λ m. m.sender_jid) f.0.messages))) f

abbrev pub contact_pass : (String → String) → Folding → Folding
contact_pass resolve f = fold_contacts resolve (keep (λ c. is_lid c.jid) f.0.contacts) f

abbrev pub call_pass : (String → String) → Folding → Folding
call_pass resolve f =
    fold_calls resolve (distinct (keep is_lid (map (λ x. x.peer_jid) f.0.calls))) f

unfoldable pub fold_lids : (String → String) → Db → Folding
fold_lids resolve db =
    call_pass resolve
      (contact_pass resolve (sender_pass resolve (chat_pass resolve (db, no_stats))))

-- PruneStubMessages
abbrev pub is_stub : Stored → Bool
is_stub m = m.kind == "other" && (m.text == "" && elim m.media_ref [ none ↦ true | some r ↦ false ])

abbrev has_messages : String → List Stored → Bool
has_messages jid [] = false
has_messages jid (m ∷ ms) = m.chat_jid == jid || has_messages jid ms

abbrev pub is_phantom : List Stored → Chat → Bool
is_phantom ms c = is_lid c.jid && (not c.is_group && not (has_messages c.jid ms))

unfoldable pub prune_stub_messages : Db → Db × (ℕ × ℕ)
prune_stub_messages db =
    let ms = delete is_stub db.messages in
    (
      record db { messages = ms; chats = delete (is_phantom ms) db.chats },
      (count_where is_stub db.messages, count_where (is_phantom ms) db.chats),
    )
