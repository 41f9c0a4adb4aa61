-- ===== src/Access/ScopedStore/Backed.antt =====
-- The store of internal/store/query.go behind the interface that internal/mcpserv/server.go asks
-- for, and what the scope of internal/mcpserv/scope.go makes of it.
use whatsapp_connect_mcp.Prelude.{
  ℕ, String, Bool, true, false, ◌&&◌, ◌||◌, List, [], ◌∷◌, ◌++◌, ◌==◌, ◌≡◌, ◌⊎◌, refl, take, keep,
  map, Result, ok, err, arith, eq_iff, Option, none, some, Bool-cases, inl, inr, All, All-keep,
  All-take, All-map, eq_refl,
}
use whatsapp_connect_mcp.Prelude.Int.{ℤ, pos}
use whatsapp_connect_mcp.Prelude.Table.{first, first_sound, upsert}
use whatsapp_connect_mcp.Prelude.Sorting.{sort_by, insert_by, All-sort_by}
use whatsapp_connect_mcp.Store.Types.{Message, Stored, Db, empty_db}
use whatsapp_connect_mcp.Store.Rows.{clamp_context}
use whatsapp_connect_mcp.Store.Ingest.{is_chat, is_message, upsert_message, next_rowid}
use whatsapp_connect_mcp.Store.Query.{
  Engine, chats, chat, messages, search_messages, message_context, QueryError, query_required,
  message_not_found, no_media, message_row, raw_row, newest_first, rows_before, rows_after, reverse,
  in_window, is_before, is_after, chat_row, row_of, context_of, at_or_before,
}
use whatsapp_connect_mcp.Store.Lookups.{
  search_contacts, last_interaction, oldest_message, count_messages_older_than, calls,
  media_message_ids, message_media_ref, head,
}
use whatsapp_connect_mcp.Store.Poll.{
  messages_after_rowid, latest_rowid, tail_rowid, is_polled, past,
}
use whatsapp_connect_mcp.Access.Config.{Config, is_readable, scope_active}
use whatsapp_connect_mcp.Access.ScopedStore.{
  store_failed, out_of_scope, Answer, scope_of, StoreApi, scoped_store,
}
use whatsapp_connect_mcp.Access.ScopedStore.Confined.{Every, Found, Honest, Confined}
use whatsapp_connect_mcp.Access.ScopedStore.Sealed.{scoped_store-Confined}

abbrev told : QueryError → String
told query_required = "search messages: query required"
told message_not_found = "message not found"
told no_media = "message has no media"

abbrev answered : {A : Type 0} → Result QueryError A → Answer A
answered (ok x) = ok x
answered (err e) = err (store_failed (told e))

unfoldable pub store_api : Engine → Db → StoreApi
store_api e db = record {
  chats = λ query archived limit. ok (chats e db query archived limit);
  chat = λ jid. ok (chat db jid);
  messages = λ jid before after limit. ok (messages db jid before after limit);
  search_messages = λ query jid limit. answered (search_messages e db query jid limit);
  message_context = λ jid id before after. answered (message_context db jid id before after);
  search_contacts = λ query limit. ok (search_contacts e db query limit);
  last_interaction = λ jid. ok (last_interaction db jid);
  oldest_message = λ jid. ok (oldest_message db jid);
  count_messages_older_than = λ jid ts. ok (count_messages_older_than db jid ts);
  latest_rowid = ok (latest_rowid db);
  messages_after_rowid = λ jid cursor own limit. ok (messages_after_rowid db jid cursor own limit);
  tail_rowid = λ jid own n. ok (tail_rowid db jid own n);
  calls = λ peer before after limit. ok (calls db peer before after limit);
  message_media_ref = λ jid id. answered (message_media_ref db jid id);
  media_message_ids =
      λ jid before after kind limit. ok (media_message_ids db jid before after kind limit);
}

All-rows :
    {A B : Type 0} (P : B → Type 0) (f : A → B) (xs : List A)
    → All (λ x. P (f x)) xs
    → All P (map f xs)
All-rows P f [] h = tt
All-rows P f (x ∷ xs) h = (h.0, All-rows P f xs h.1)

All-append : {A : Type 0} (P : A → Type 0) (xs ys : List A) → All P xs → All P ys → All P (xs ++ ys)
All-append P [] ys h k = k
All-append P (x ∷ xs) ys h k = (h.0, All-append P xs ys h.1 k)

All-reverse : {A : Type 0} (P : A → Type 0) (xs : List A) → All P xs → All P (reverse xs)
All-reverse P [] h = tt
All-reverse P (x ∷ xs) h = All-append P (reverse xs) (x ∷ []) (All-reverse P xs h.1) (h.0, tt)

-- The rows of a query that filters, sorts and cuts.
selected :
    {A : Type 0} (P : A → Type 0) (le : A → A → Bool) (test : A → Bool) (n : ℕ) (xs : List A)
    → ((x : A) → test x ≡ true → P x)
    → All P (take n (sort_by le (keep test xs)))
selected P le test n xs f =
    All-take P n (sort_by le (keep test xs))
      (All-sort_by le P (keep test xs) (All-map f (keep test xs) (All-keep test xs)))

same_text : (a b : String) (q : Bool) → (a == b && q) ≡ true → a ≡ b
same_text a b q h = ground (arith, h, eq_iff a b)

found_head :
    {A B : Type 0} (P : B → Type 0) (f : A → B) (xs : List A)
    → All (λ x. P (f x)) xs
    → Found P (ok (row_of f (head xs)))
found_head P f [] h = tt
found_head P f (x ∷ xs) h = h.0

found_first :
    {A B : Type 0} (P : B → Type 0) (f : A → B) (o : Option A)
    → ((x : A) → o ≡ some x → P (f x))
    → Found P (ok (row_of f o))
found_first P f none h = tt
found_first P f (some x) h = h x refl

abbrev IsOf : String → Stored → Type 0
IsOf jid m = m.chat_jid ≡ jid

context_rows :
    (db : Db) (jid : String) (before after : ℤ) (o : Option Stored)
    → ((m : Stored) → o ≡ some m → m.chat_jid ≡ jid)
    → Every (λ r. r.chat_jid ≡ jid) (answered (context_of db jid before after o))
context_rows db jid before after none h = tt
context_rows db jid before after (some m) h =
    let older = rows_before db jid m.ts m.id (clamp_context before) in
    let newer = rows_after db jid m.ts m.id (clamp_context after) in
    let older_rows : All (IsOf jid) older =
      All-reverse (IsOf jid)
        (take (clamp_context before)
          (newest_first (keep (λ x. x.chat_jid == jid && is_before m.ts m.id x) db.messages)))
        (selected (IsOf jid) (λ a b. at_or_before b a)
          (λ x. x.chat_jid == jid && is_before m.ts m.id x) (clamp_context before) db.messages
          (λ x. same_text x.chat_jid jid (is_before m.ts m.id x))) in
    let newer_rows : All (IsOf jid) newer =
      selected (IsOf jid) at_or_before (λ x. x.chat_jid == jid && is_after m.ts m.id x)
        (clamp_context after) db.messages (λ x. same_text x.chat_jid jid (is_after m.ts m.id x)) in
    All-rows (λ r. r.chat_jid ≡ jid) (message_row db) (older ++ (m ∷ newer))
      (All-append (IsOf jid) older (m ∷ newer) older_rows (h m refl, newer_rows))

search_rows :
    (e : Engine) (db : Db) (query jid : String) (limit : ℤ)
    → (jid == "") ≡ false
    → Every (λ r. r.chat_jid ≡ jid) (answered (search_messages e db query jid limit))
unfolding search_messages
search_rows e db query jid limit one = elim (Bool-cases (e.trim_space query == "")) [
  | inl blank ↦ rw blank tt
  | inr given ↦ rw given (
      All-rows (λ r. r.chat_jid ≡ jid) (message_row db) _
        (selected (λ x. x.chat_jid ≡ jid) _ _ _ db.messages
          (λ x p. ground (arith, p, one, eq_iff x.chat_jid jid))))
]

-- Every query for one chat, message context, peer or chat row answers rows of that chat or peer
-- only, and the last interaction of an identity is in its chat or sent by it.
pub store_api-Honest : (e : Engine) (db : Db) → Honest (store_api e db)
unfolding store_api chat messages last_interaction oldest_message messages_after_rowid calls
    message_context
store_api-Honest e db = record {
  chat = λ jid.
      found_first (λ r. r.jid ≡ jid) (chat_row db) (first (is_chat jid) db.chats)
        (λ c h. ground (arith, first_sound (is_chat jid) db.chats {x = c} h, eq_iff c.jid jid));
  messages = λ jid before after limit.
      All-rows (λ r. r.chat_jid ≡ jid) (message_row db) _
        (selected (λ x. x.chat_jid ≡ jid) _ _ _ db.messages
          (λ x. same_text x.chat_jid jid (in_window before after x.ts)));
  search_messages = λ query jid limit one. search_rows e db query jid limit one;
  message_context = λ jid id before after.
      context_rows db jid before after (first (is_message jid id) db.messages) (λ m h.
        ground
          (arith, first_sound (is_message jid id) db.messages {x = m} h, eq_iff m.chat_jid jid));
  last_interaction = λ jid.
      found_head (λ r. (r.chat_jid ≡ jid) ⊎ (r.sender_jid ≡ jid)) (message_row db) _
        (All-sort_by _ (λ x. (x.chat_jid ≡ jid) ⊎ (x.sender_jid ≡ jid)) _
          (All-map
            (λ x p. elim (Bool-cases (x.chat_jid == jid)) [
              | inl h ↦ inl (ground (arith, h, eq_iff x.chat_jid jid))
              | inr h ↦ inr (ground (arith, p, h, eq_iff x.sender_jid jid))
            ])
            _ (All-keep (λ x. x.chat_jid == jid || x.sender_jid == jid) db.messages)));
  oldest_message = λ jid.
      found_head (λ r. r.chat_jid ≡ jid) (raw_row db) _
        (All-sort_by _ (λ x. x.chat_jid ≡ jid) _
          (All-map (λ x p. ground (arith, p, eq_iff x.chat_jid jid)) _
            (All-keep (λ x. x.chat_jid == jid) db.messages)));
  messages_after_rowid = λ jid cursor own limit one.
      All-rows (λ r. r.chat_jid ≡ jid) (message_row db) _
        (All-take (λ x. x.chat_jid ≡ jid) _ _
          (All-map (λ x p. ground (arith, p, one, eq_iff x.chat_jid jid)) _
            (All-keep (λ x. past cursor x && is_polled jid own x) db.messages)));
  calls = λ peer before after limit one.
      All-rows (λ r. r.peer_jid ≡ peer) _ _
        (selected (λ x. x.peer_jid ≡ peer) _ _ _ db.calls
          (λ x p. ground (arith, p, one, eq_iff x.peer_jid peer)));
}

-- With an allowlist on, every row that the tools get of the database is in an allowed chat, of an
-- allowed contact or of an allowed caller, but for the last interaction, which may be a message of
-- an allowed sender in any chat. The counts, cursors, media references and message ids of a chat
-- that is not allowed are refused.
pub database_reads-Confined :
    (has : String → String → Bool) (e : Engine) (c : Config) (db : Db)
    → scope_active c ≡ true
    → Confined (is_readable c) (scoped_store has (scope_of c) (store_api e db))
database_reads-Confined has e c db on =
    scoped_store-Confined has c (store_api e db) on (store_api-Honest e db)

-- The exception is real: once an allowed contact writes in a group outside the scope, the agent
-- gets that message as the contact's last interaction, while the group itself is refused to it.
pub last_interaction_leaves_scope :
    (has : String → String → Bool) (e : Engine) (c : Config) (m : Message)
    → is_readable c m.sender_jid ≡ true
    → is_readable c m.chat_jid ≡ false
    → ((scoped_store has (scope_of c) (store_api e (upsert_message m empty_db))).last_interaction
          m.sender_jid
        ≡ ok (
            some (
              message_row
                (upsert_message m empty_db)
                (record { rowid = 1; message = m; read_at = pos 0 }))))
      × ((scoped_store has (scope_of c) (store_api e (upsert_message m empty_db))).oldest_message
            m.chat_jid
          ≡ err out_of_scope)
unfolding scoped_store store_api last_interaction upsert_message next_rowid upsert sort_by insert_by
last_interaction_leaves_scope has e c m allowed refused =
    rw (allowed, refused, eq_refl m.sender_jid) (ground (arith, eq_refl m.sender_jid), refl)
