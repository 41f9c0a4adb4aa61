-- ===== src/Access/ScopedStore/Confined.antt =====
-- What the wrapper of internal/mcpserv/scope.go asks of the store below it, and what a confined
-- store is.
use whatsapp_connect_mcp.Prelude.{
  ℕ, String, Bool, true, false, List, ◌==◌, ◌≡◌, ◌⊎◌, ok, err, Option, none, some, Bool-cases, inl,
  inr, All, All-keep, All-map,
}
use whatsapp_connect_mcp.Prelude.Int.{ℤ}
use whatsapp_connect_mcp.Access.ScopedStore.{
  out_of_scope, Answer, Scope, StoreApi, allowed, narrowed, mapped, keep_allowed,
}

-- Every row of an answer; an error has none.
abbrev pub Every : {A : Type 0} → (A → Type 0) → Answer (List A) → Type 0
Every P (err e) = Unit
Every P (ok xs) = All P xs

abbrev pub Found : {A : Type 0} → (A → Type 0) → Answer (Option A) → Type 0
Found P (err e) = Unit
Found P (ok none) = Unit
Found P (ok (some x)) = P x

abbrev pub Page : {A : Type 0} → (A → Type 0) → Answer (List A × ℕ) → Type 0
Page P (err e) = Unit
Page P (ok p) = All P p.0

-- What a store promises: the rows that it answers belong to the chat that was asked for.
pub record Honest (st : StoreApi) : Type 0 where
  pub chat : (jid : String) → Found (λ r. r.jid ≡ jid) (st.chat jid)
  pub messages :
      (jid : String) (before after limit : ℤ)
      → Every (λ r. r.chat_jid ≡ jid) (st.messages jid before after limit)
  pub search_messages :
      (query jid : String) (limit : ℤ)
      → (jid == "") ≡ false
      → Every (λ r. r.chat_jid ≡ jid) (st.search_messages query jid limit)
  pub message_context :
      (jid id : String) (before after : ℤ)
      → Every (λ r. r.chat_jid ≡ jid) (st.message_context jid id before after)
  pub last_interaction :
      (jid : String)
      → Found (λ r. (r.chat_jid ≡ jid) ⊎ (r.sender_jid ≡ jid)) (st.last_interaction jid)
  pub oldest_message : (jid : String) → Found (λ r. r.chat_jid ≡ jid) (st.oldest_message jid)
  pub messages_after_rowid :
      (jid : String) (cursor : ℕ) (own : Bool) (limit : ℤ)
      → (jid == "") ≡ false
      → Page (λ r. r.chat_jid ≡ jid) (st.messages_after_rowid jid cursor own limit)
  pub calls :
      (peer : String) (before after limit : ℤ)
      → (peer == "") ≡ false
      → Every (λ r. r.peer_jid ≡ peer) (st.calls peer before after limit)

-- What an agent can get from a store: rows of readable chats only, and of the reads that answer no
-- rows those of readable chats. The one exception is the last interaction, which may be in any chat
-- if its sender is readable.
pub record Confined (readable : String → Bool) (st : StoreApi) : Type 0 where
  pub chat : (jid : String) → Found (λ r. readable r.jid ≡ true) (st.chat jid)
  pub chats :
      (query : String) (archived : Bool) (limit : ℤ)
      → Every (λ r. readable r.jid ≡ true) (st.chats query archived limit)
  pub messages :
      (jid : String) (before after limit : ℤ)
      → Every (λ r. readable r.chat_jid ≡ true) (st.messages jid before after limit)
  pub search_messages :
      (query jid : String) (limit : ℤ)
      → Every (λ r. readable r.chat_jid ≡ true) (st.search_messages query jid limit)
  pub message_context :
      (jid id : String) (before after : ℤ)
      → Every (λ r. readable r.chat_jid ≡ true) (st.message_context jid id before after)
  pub search_contacts :
      (query : String) (limit : ℤ)
      → Every (λ r. readable r.jid ≡ true) (st.search_contacts query limit)
  pub last_interaction :
      (jid : String)
      → Found
          (λ r. (readable r.chat_jid ≡ true) ⊎ (readable r.sender_jid ≡ true))
          (st.last_interaction jid)
  pub oldest_message :
      (jid : String) → Found (λ r. readable r.chat_jid ≡ true) (st.oldest_message jid)
  pub messages_after_rowid :
      (jid : String) (cursor : ℕ) (own : Bool) (limit : ℤ)
      → Page (λ r. readable r.chat_jid ≡ true) (st.messages_after_rowid jid cursor own limit)
  pub calls :
      (peer : String) (before after limit : ℤ)
      → Every (λ r. readable r.peer_jid ≡ true) (st.calls peer before after limit)
  pub count_messages_older_than :
      (jid : String) (ts : ℤ)
      → readable jid ≡ false
      → st.count_messages_older_than jid ts ≡ err out_of_scope
  pub tail_rowid :
      (jid : String) (own : Bool) (n : ℤ)
      → (jid == "") ≡ false
      → readable jid ≡ false
      → st.tail_rowid jid own n ≡ err out_of_scope
  pub message_media_ref :
      (jid id : String) → readable jid ≡ false → st.message_media_ref jid id ≡ err out_of_scope
  pub media_message_ids :
      (jid : String) (before after : ℤ) (kind : String) (limit : ℤ)
      → readable jid ≡ false
      → st.media_message_ids jid before after kind limit ≡ err out_of_scope

pub Every-map :
    {A : Type 0} (P Q : A → Type 0) (a : Answer (List A))
    → ((x : A) → P x → Q x)
    → Every P a
    → Every Q a
Every-map P Q (err e) f h = tt
Every-map P Q (ok xs) f h = All-map f xs h

pub Found-map :
    {A : Type 0} (P Q : A → Type 0) (a : Answer (Option A))
    → ((x : A) → P x → Q x)
    → Found P a
    → Found Q a
Found-map P Q (err e) f h = tt
Found-map P Q (ok none) f h = tt
Found-map P Q (ok (some x)) f h = f x h

pub Page-map :
    {A : Type 0} (P Q : A → Type 0) (a : Answer (List A × ℕ))
    → ((x : A) → P x → Q x)
    → Page P a
    → Page Q a
Page-map P Q (err e) f h = tt
Page-map P Q (ok p) f h = All-map f p.0 h

module _ (scope : Scope) where
  -- A read of one chat, by what the store promises of it.
  pub allowed_read :
      {A : Type 0} (T : Answer A → Type 0) (jid : String) (a : Answer A)
      → T (err out_of_scope)
      → (scope.readable jid ≡ true → T a)
      → T (allowed scope jid a)
  allowed_read T jid a refused h = elim (Bool-cases (scope.readable jid)) [
    | inl e ↦ rw e (h e)
    | inr e ↦ rw e refused
  ]

  pub narrowed_read :
      {A : Type 0} (T : Answer A → Type 0) (jid : String) (one all : Answer A)
      → T (err out_of_scope)
      → ((jid == "") ≡ false → scope.readable jid ≡ true → T one)
      → T all
      → T (narrowed scope jid one all)
  narrowed_read T jid one all refused h sweep = elim (Bool-cases (jid == "")) [
    | inl e ↦ rw e sweep
    | inr e ↦ rw e (allowed_read T jid one refused (h e))
  ]

  module _ (on : scope.active ≡ true) where
    pub swept :
        {A : Type 0} (key : A → String) (xs : List A)
        → All (λ x. scope.readable (key x) ≡ true) (keep_allowed scope key xs)
    swept key xs = rw on (All-keep (λ x. scope.readable (key x)) xs)

    pub swept_answer :
        {A : Type 0} (key : A → String) (a : Answer (List A))
        → Every (λ x. scope.readable (key x) ≡ true) (mapped (keep_allowed scope key) a)
    swept_answer key (err e) = tt
    swept_answer key (ok xs) = swept key xs

    pub swept_page :
        {A : Type 0} (key : A → String) (a : Answer (List A × ℕ))
        → Page
            (λ x. scope.readable (key x) ≡ true)
            (mapped (λ p. (keep_allowed scope key p.0, p.1)) a)
    swept_page key (err e) = tt
    swept_page key (ok p) = swept key p.0
