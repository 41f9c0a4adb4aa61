-- ===== src/Access/ScopedStore/Sealed.antt =====
-- newScopedStore of internal/mcpserv/scope.go over a store that keeps its promises.
use whatsapp_connect_mcp.Prelude.{
  ℕ, String, Bool, true, List, [], ◌∷◌, ◌≡◌, refl, ◌⊎◌, ap, ◌∙◌, take, ok, err, arith, eq_iff,
  if◌then◌else◌, Option, none, some, Bool-cases, inl, inr, All, All-take, All-map, contains,
}
use whatsapp_connect_mcp.Prelude.Sorting.{sort_by, All-sort_by}
use whatsapp_connect_mcp.Store.Rows.{ChatRow, clamp_limit}
use whatsapp_connect_mcp.Access.Config.{Config, is_readable, scope_active}
use whatsapp_connect_mcp.Access.ScopedStore.{
  Answer, Scope, scope_of, StoreApi, mapped, listed, gather, newest_first, scoped_store,
}
use whatsapp_connect_mcp.Access.ScopedStore.Confined.{
  Every, Found, Page, Honest, Confined, Every-map, Found-map, Page-map, allowed_read, narrowed_read,
  swept_answer, swept_page,
}

module _ (readable : String → Bool) where
  abbrev IsReadable : String → Type 0
  IsReadable jid = readable jid ≡ true

  mapped_cons :
      (row : ChatRow) (a : Answer (List ChatRow))
      → IsReadable row.jid
      → Every (λ r. IsReadable r.jid) a
      → Every (λ r. IsReadable r.jid) (mapped (λ rows. row ∷ rows) a)
  mapped_cons row (err e) p h = tt
  mapped_cons row (ok rows) p h = (p, h)

  gather_step :
      (shows : ChatRow → Bool) (jid : String) (found : Answer (Option ChatRow))
      (rest : Answer (List ChatRow))
      → Found (λ r. r.jid ≡ jid) found
      → IsReadable jid
      → Every (λ r. IsReadable r.jid) rest
      → Every
          (λ r. IsReadable r.jid)
          (elim found [
            | err e ↦ err e
            | ok none ↦ rest
            | ok (some row) ↦ if shows row then mapped (λ rows. row ∷ rows) rest else rest
          ])
  gather_step shows jid (err e) rest found p h = tt
  gather_step shows jid (ok none) rest found p h = h
  gather_step shows jid (ok (some row)) rest found p h = elim (Bool-cases (shows row)) [
    | inl e ↦ rw e (mapped_cons row rest (ap readable found ∙ p) h)
    | inr e ↦ rw e h
  ]

  gathered :
      (chat : String → Answer (Option ChatRow)) (shows : ChatRow → Bool) (jids : List String)
      → ((jid : String) → Found (λ r. r.jid ≡ jid) (chat jid))
      → All IsReadable jids
      → Every (λ r. IsReadable r.jid) (gather chat shows jids)
  unfolding gather
  gathered chat shows [] honest h = tt
  gathered chat shows (jid ∷ jids) honest h =
      gather_step shows jid (chat jid) (gather chat shows jids) (honest jid) h.0
        (gathered chat shows jids honest h.1)

  sorted_chats :
      (n : ℕ) (a : Answer (List ChatRow))
      → Every (λ r. IsReadable r.jid) a
      → Every (λ r. IsReadable r.jid) (mapped (λ rows. take n (sort_by newest_first rows)) a)
  sorted_chats n (err e) h = tt
  sorted_chats n (ok rows) h =
      All-take (λ r. IsReadable r.jid) n (sort_by newest_first rows)
        (All-sort_by newest_first (λ r. IsReadable r.jid) rows h)

All-contains : (xs : List String) → All (λ x. contains xs x ≡ true) xs
All-contains [] = tt
All-contains (x ∷ xs) =
    (ground (arith, eq_iff x x), All-map (λ y p. ground (arith, p)) xs (All-contains xs))

listed_chats :
    (c : Config) → scope_active c ≡ true → All (λ jid. is_readable c jid ≡ true) c.readable_chats
unfolding is_readable
listed_chats c on = rw on (All-contains c.readable_chats)

-- With an allowlist on, whatever tool asks whatever of a store whose rows belong to the chat that
-- was asked for, it gets rows of allowed chats, contacts and callers only. The one exception is
-- LastInteraction, whose row is in an allowed chat or sent by an allowed identity.
pub scoped_store-Confined :
    (has : String → String → Bool) (c : Config) (st : StoreApi)
    → scope_active c ≡ true
    → Honest st
    → Confined (is_readable c) (scoped_store has (scope_of c) st)
unfolding scoped_store
scoped_store-Confined has c st on honest =
    let s : Scope = scope_of c in
    let r : String → Bool = is_readable c in
    record {
      chat = λ jid.
          allowed_read s (Found (λ x. r x.jid ≡ true)) jid (st.chat jid) tt
            (λ p. Found-map _ _ (st.chat jid) (λ x q. ap r q ∙ p) (honest.chat jid));
      chats = λ query archived limit. rw on (
          sorted_chats r (clamp_limit limit) _ (
            gathered r st.chat (listed has query archived) c.readable_chats honest.chat
              (listed_chats c on)));
      messages = λ jid before after limit.
          allowed_read s (Every (λ x. r x.chat_jid ≡ true)) jid _ tt (λ p.
            Every-map _ _ (st.messages jid before after limit) (λ x q. ap r q ∙ p)
              (honest.messages jid before after limit));
      search_messages = λ query jid limit.
          narrowed_read s (Every (λ x. r x.chat_jid ≡ true)) jid _ _ tt
            (λ one p.
              Every-map _ _ (st.search_messages query jid limit) (λ x q. ap r q ∙ p)
                (honest.search_messages query jid limit one))
            (swept_answer s on (λ m. m.chat_jid) (st.search_messages query "" limit));
      message_context = λ jid id before after.
          allowed_read s (Every (λ x. r x.chat_jid ≡ true)) jid _ tt (λ p.
            Every-map _ _ (st.message_context jid id before after) (λ x q. ap r q ∙ p)
              (honest.message_context jid id before after));
      search_contacts =
          λ query limit. swept_answer s on (λ x. x.jid) (st.search_contacts query limit);
      last_interaction = λ jid.
          allowed_read s (Found (λ x. (r x.chat_jid ≡ true) ⊎ (r x.sender_jid ≡ true))) jid _ tt
            (λ p.
              Found-map _ _ (st.last_interaction jid)
                (λ x q. elim q [ inl h ↦ inl (ap r h ∙ p) | inr h ↦ inr (ap r h ∙ p) ])
                (honest.last_interaction jid));
      oldest_message = λ jid. allowed_read s (Found (λ x. r x.chat_jid ≡ true)) jid _ tt (λ p.
          Found-map _ _ (st.oldest_message jid) (λ x q. ap r q ∙ p) (honest.oldest_message jid));
      messages_after_rowid = λ jid cursor own limit.
          narrowed_read s (Page (λ x. r x.chat_jid ≡ true)) jid _ _ tt
            (λ one p.
              Page-map _ _ (st.messages_after_rowid jid cursor own limit) (λ x q. ap r q ∙ p)
                (honest.messages_after_rowid jid cursor own limit one))
            (swept_page s on (λ m. m.chat_jid) (st.messages_after_rowid "" cursor own limit));
      calls = λ peer before after limit.
          narrowed_read s (Every (λ x. r x.peer_jid ≡ true)) peer _ _ tt
            (λ one p.
              Every-map _ _ (st.calls peer before after limit) (λ x q. ap r q ∙ p)
                (honest.calls peer before after limit one))
            (swept_answer s on (λ x. x.peer_jid) (st.calls "" before after limit));
      count_messages_older_than = λ jid ts h. rw h refl;
      tail_rowid = λ jid own n one h. rw (one, h) refl;
      message_media_ref = λ jid id h. rw h refl;
      media_message_ids = λ jid before after kind limit h. rw h refl;
    }
