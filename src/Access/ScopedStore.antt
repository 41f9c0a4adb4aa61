-- ===== src/Access/ScopedStore.antt =====
-- internal/mcpserv/scope.go: a store confined to the chats that the scope allows. Its interface,
-- `StoreApi`, is Store of internal/mcpserv/server.go (with cursors that are not negative);
-- strings.ToLower is a parameter.
pub mod Confined
pub mod Sealed
pub mod Backed
use whatsapp_connect_mcp.Prelude.{
  ℕ, String, Bool, true, false, not, ◌&&◌, ◌||◌, List, [], ◌∷◌, ◌==◌, ◌≡◌, refl, keep, take, length,
  Result, ok, err, arith, eq_iff, if◌then◌else◌, Option, none, some, Bool-cases, inl, inr, All,
  All-keep, All-take, ltb, All-map, All-keep-All,
}
use whatsapp_connect_mcp.Prelude.Int.{ℤ, leb_ℤ, pos}
use whatsapp_connect_mcp.Access.Config.{Config, is_readable, scope_active}
use whatsapp_connect_mcp.Prelude.Sorting.{sort_by, Sorted, sort_by-Sorted, All-sort_by}
use whatsapp_connect_mcp.Store.Rows.{ChatRow, MessageRow, ContactRow, CallRow, clamp_limit}

-- The errors: those of the store below, and ErrOutOfScope.
pub data ReadError : Type 0 where
  store_failed : String → ReadError
  out_of_scope : ReadError

abbrev pub Answer : Type 0 → Type 0
Answer A = Result ReadError A

pub record Scope : Type 0 where
  pub readable : String → Bool
  pub active : Bool
  pub list : List String

-- ScopeReader with the settings that it last read.
abbrev pub scope_of : Config → Scope
scope_of c = record { readable = is_readable c; active = scope_active c; list = c.readable_chats }

pub record StoreApi : Type 0 where
  pub chats : String → Bool → ℤ → Answer (List ChatRow)
  pub chat : String → Answer (Option ChatRow)
  pub messages : String → ℤ → ℤ → ℤ → Answer (List MessageRow)
  pub search_messages : String → String → ℤ → Answer (List MessageRow)
  pub message_context : String → String → ℤ → ℤ → Answer (List MessageRow)
  pub search_contacts : String → ℤ → Answer (List ContactRow)
  pub last_interaction : String → Answer (Option MessageRow)
  pub oldest_message : String → Answer (Option MessageRow)
  pub count_messages_older_than : String → ℤ → Answer ℕ
  pub latest_rowid : Answer ℕ
  pub messages_after_rowid : String → ℕ → Bool → ℤ → Answer (List MessageRow × ℕ)
  pub tail_rowid : String → Bool → ℤ → Answer ℕ
  pub calls : String → ℤ → ℤ → ℤ → Answer (List CallRow)
  pub message_media_ref : String → String → Answer (String × (String × String))
  pub media_message_ids : String → ℤ → ℤ → String → ℤ → Answer (List String)

-- What `allow` lets through.
abbrev pub allowed : {A : Type 0} → Scope → String → Answer A → Answer A
allowed scope jid a = if scope.readable jid then a else err out_of_scope

-- The same where "" means every chat.
abbrev pub narrowed : {A : Type 0} → Scope → String → Answer A → Answer A → Answer A
narrowed scope jid one all = if jid == "" then all else allowed scope jid one

abbrev pub mapped : {A B : Type 0} → (A → B) → Answer A → Answer B
mapped f (ok x) = ok (f x)
mapped f (err e) = err e

-- keepAllowed, and the two loops like it.
abbrev pub keep_allowed : {A : Type 0} → Scope → (A → String) → List A → List A
keep_allowed scope key xs = if not scope.active then xs else keep (λ x. scope.readable (key x)) xs

-- Whether the listing of chats shows a row.
abbrev pub listed : (String → String → Bool) → String → Bool → ChatRow → Bool
listed has query archived row =
    (archived || not row.archived) && (query == "" || has row.name query)

-- The loop of Chats over the allowlist.
unfoldable pub gather :
    (String → Answer (Option ChatRow)) → (ChatRow → Bool) → List String → Answer (List ChatRow)
gather chat shows [] = ok []
gather chat shows (jid ∷ jids) =
    let rest = gather chat shows jids in
    elim (chat jid) [
      | err e ↦ err e
      | ok none ↦ rest
      | ok (some row) ↦ if shows row then mapped (λ rows. row ∷ rows) rest else rest
    ]

abbrev pub newest_first : ChatRow → ChatRow → Bool
newest_first a b = leb_ℤ b.last_message_at a.last_message_at

-- strings.Contains of the two texts in lower case, as `has name query`.
unfoldable pub scoped_store : (String → String → Bool) → Scope → StoreApi → StoreApi
unfolding gather
scoped_store has scope st = record st {
  chats = λ query archived limit.
      if not scope.active
      then st.chats query archived limit
      else mapped (λ rows. take (clamp_limit limit) (sort_by newest_first rows))
          (gather st.chat (listed has query archived) scope.list);
  chat = λ jid. allowed scope jid (st.chat jid);
  messages = λ jid before after limit. allowed scope jid (st.messages jid before after limit);
  search_messages = λ query jid limit.
      narrowed scope jid (st.search_messages query jid limit)
        (mapped (keep_allowed scope (λ m. m.chat_jid)) (st.search_messages query "" limit));
  message_context =
      λ jid id before after. allowed scope jid (st.message_context jid id before after);
  search_contacts =
      λ query limit. mapped (keep_allowed scope (λ c. c.jid)) (st.search_contacts query limit);
  last_interaction = λ jid. allowed scope jid (st.last_interaction jid);
  oldest_message = λ jid. allowed scope jid (st.oldest_message jid);
  count_messages_older_than = λ jid ts. allowed scope jid (st.count_messages_older_than jid ts);
  messages_after_rowid = λ jid after own limit.
      narrowed scope jid (st.messages_after_rowid jid after own limit) (
        mapped (λ page. (keep_allowed scope (λ m. m.chat_jid) page.0, page.1))
          (st.messages_after_rowid "" after own limit));
  tail_rowid = λ jid own n. narrowed scope jid (st.tail_rowid jid own n) (st.tail_rowid jid own n);
  calls = λ jid before after limit.
      narrowed scope jid (st.calls jid before after limit)
        (mapped (keep_allowed scope (λ c. c.peer_jid)) (st.calls "" before after limit));
  message_media_ref = λ jid id. allowed scope jid (st.message_media_ref jid id);
  media_message_ids = λ jid before after kind limit.
      allowed scope jid (st.media_message_ids jid before after kind limit);
}
