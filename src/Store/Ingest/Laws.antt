-- ===== src/Store/Ingest/Laws.antt =====
-- What the writes of internal/store/ingest.go keep, one by one and over any sequence of them.
use whatsapp_connect_mcp.Prelude.{
  String, Bool, true, false, some, List, [], ◌∷◌, ◌==◌, ◌≡◌, refl, arith, inl, inr, eq_iff,
  Bool-cases, if◌then◌else◌,
}
use whatsapp_connect_mcp.Prelude.Int.{ℤ, pos, ◌≤ℤ◌}
use whatsapp_connect_mcp.Prelude.Table.{
  first, first-upsert, first-upsert_other, first-update, upsert_idem, update_idem,
}
use whatsapp_connect_mcp.Store.Types.{Chat, Message, Stored, CallLog, Db}
use whatsapp_connect_mcp.Store.Ingest.{
  is_chat, is_message, merge_chat, new_chat, bump, upsert_chat, upsert_message, upsert_contact,
  upsert_lid_mapping, mark_read, insert_call, next_rowid,
}

pub data Write : Type 0 where
  chat : String → String → Bool → ℤ → Write
  message : Message → Write
  contact : String → String → String → String → String → Write
  lid_mapping : String → String → Write
  reads : String → List String → ℤ → Write
  call : CallLog → Write

unfoldable pub apply : Write → Db → Db
apply (chat jid name is_group at) db = upsert_chat jid name is_group at db
apply (message m) db = upsert_message m db
apply (contact jid phone push full business) db = upsert_contact jid phone push full business db
apply (lid_mapping lid pn) db = upsert_lid_mapping lid pn db
apply (reads chat_jid ids at) db = mark_read chat_jid ids at db
apply (call c) db = insert_call c db

unfoldable pub apply_all : List Write → Db → Db
apply_all [] db = db
apply_all (w ∷ ws) db = apply_all ws (apply w db)

-- The same chat, no staler, not archived nor unarchived, and with a name if it had one.
pub record Carries (c c' : Chat) : Type 0 where
  pub same_jid : c'.jid ≡ c.jid
  pub forward : c.last_message_at ≤ℤ c'.last_message_at
  pub same_archived : c'.archived ≡ c.archived
  pub named : (c.name == "") ≡ false → (c'.name == "") ≡ false

Carries-refl : (c : Chat) → Carries c c
Carries-refl c = record {
  same_jid = refl;
  forward = omega arith;
  same_archived = refl;
  named = λ p. p;
}

abbrev pub KeepsChat : String → Db → Db → Type 0
KeepsChat jid db db' =
    (c : Chat)
    → first (is_chat jid) db.chats ≡ some c
    → (c' : Chat) × (first (is_chat jid) db'.chats ≡ some c') × Carries c c'

upsert_chat-KeepsChat :
    (jid name : String) (is_group : Bool) (at : ℤ) (db : Db) (k : String)
    → KeepsChat k db (upsert_chat jid name is_group at db)
unfolding upsert_chat
upsert_chat-KeepsChat jid name is_group at db k c h = elim (Bool-cases (jid == k)) [
  | inr other ↦ (
    c,
    rw
        (first-upsert_other (is_chat jid) (is_chat k) (merge_chat name is_group at)
          (new_chat jid name is_group at) other (λ x. refl)
          (λ x p. ground (arith, eq_iff x.jid jid, eq_iff x.jid k, eq_iff jid k)) db.chats)
        h,
    Carries-refl c,
  )
  | inl same ↦
      let same' : jid ≡ k = (eq_iff jid k).0 same in
      (
        merge_chat name is_group at c,
        rw (
          same',
          first-upsert (is_chat k) (merge_chat name is_group at) (new_chat k name is_group at)
              ((eq_iff k k).1 refl) (λ x. refl) db.chats,
          h,
        ),
        record {
          same_jid = refl;
          forward = ground arith;
          same_archived = refl;
          named = λ p. ground arith;
        },
      )
]

upsert_message-KeepsChat :
    (m : Message) (db : Db) (k : String) → KeepsChat k db (upsert_message m db)
unfolding upsert_message
upsert_message-KeepsChat m db k c h = (
  if is_chat m.chat_jid c then bump m.ts c else c,
  rw (first-update (is_chat m.chat_jid) (is_chat k) (bump m.ts) (λ x. refl) db.chats, h),
  record {
    same_jid = ground arith;
    forward = ground arith;
    same_archived = ground arith;
    named = λ p. ground arith;
  },
)

apply-KeepsChat : (w : Write) (db : Db) (k : String) → KeepsChat k db (apply w db)
unfolding apply upsert_contact upsert_lid_mapping mark_read insert_call
apply-KeepsChat (chat jid name is_group at) db k c h =
    upsert_chat-KeepsChat jid name is_group at db k c h
apply-KeepsChat (message m) db k c h = upsert_message-KeepsChat m db k c h
apply-KeepsChat (contact jid phone push full business) db k c h = (c, h, Carries-refl c)
apply-KeepsChat (lid_mapping lid pn) db k c h = (c, ground arith, Carries-refl c)
apply-KeepsChat (reads chat_jid ids at) db k c h = (c, unread ids, Carries-refl c)
  where
    unread : (is : List String) → first (is_chat k) (mark_read chat_jid is at db).chats ≡ some c
    unread [] = h
    unread (i ∷ is) = h
apply-KeepsChat (call x) db k c h = (c, h, Carries-refl c)

Carries-trans : {a b c : Chat} → Carries a b → Carries b c → Carries a c
Carries-trans {a} {b} {c} p q = record {
  same_jid = cc;
  forward = omega arith;
  same_archived = cc;
  named = λ h. q.named (p.named h);
}

-- Over any sequence of ingest writes, a chat that is known stays known: its last_message_at only
-- moves forward, its archived flag is left alone, and a name that is there is never blanked.
pub writes_carry_chat :
    (ws : List Write) (db : Db) (jid : String) → KeepsChat jid db (apply_all ws db)
unfolding apply_all
writes_carry_chat [] db jid c h = (c, h, Carries-refl c)
writes_carry_chat (w ∷ ws) db jid c h =
    let (c', h', carried) = apply-KeepsChat w db jid c h in
    let (c'', h'', carried') = writes_carry_chat ws (apply w db) jid c' h' in
    (c'', h'', Carries-trans carried carried')

-- Ingesting the same message twice in a row is the same as once: the second changes neither the
-- row, nor its rowid and read mark, nor the chat.
pub upsert_message_idem :
    (m : Message) (db : Db) → upsert_message m (upsert_message m db) ≡ upsert_message m db
unfolding upsert_message
upsert_message_idem m db =
    let new : Stored = record { rowid = next_rowid db.messages; message = m; read_at = pos 0 } in
    let own : is_message m.chat_jid m.id new ≡ true =
      ground (arith, eq_iff m.chat_jid m.chat_jid, eq_iff m.id m.id) in
    let rows =
      upsert_idem (is_message m.chat_jid m.id) (λ old. record old { message = m }) new
        (record { rowid = next_rowid (upsert_message m db).messages; message = m; read_at = pos 0 })
        own refl (λ x p. own) (λ x. refl) db.messages in
    let chats =
      update_idem (is_chat m.chat_jid) (bump m.ts) (λ x. refl) (λ x. ground arith) db.chats in
    λ i. record db { messages = rows i; chats = chats i }
