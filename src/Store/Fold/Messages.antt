-- ===== src/Store/Fold/Messages.antt =====
-- FoldLIDs of internal/store/fold.go: the chats that messages are in.
use whatsapp_connect_mcp.Prelude.{
  String, false, not, List, [], ◌∷◌, ◌==◌, ◌≡◌, arith, map, All, All-map, inl, inr, Bool-cases,
}
use whatsapp_connect_mcp.Prelude.Table.{delete, All-update, All-keep_both}
use whatsapp_connect_mcp.Store.Types.{Chat, Stored}
use whatsapp_connect_mcp.Store.Fold.{
  is_lid, to_sender, move_messages, moves, to_chat, Folding, fold_chat, fold_chats, fold_sender,
  fold_senders,
}
use whatsapp_connect_mcp.Store.Fold.Settles.{
  Pending, Clear, named, Pending-here, Pending-skip, Pending-clear, Pending-done,
}

module _ (resolve : String → String) (phones : (l : String) → is_lid (resolve l) ≡ false) where
  -- Messages in the chats that `of` holds of.
  abbrev pub ChatPending : (String → Type 0) → List String → Stored → Type 0
  ChatPending of rest m = of m.chat_jid → Pending resolve rest m.chat_jid

  move_messages-Pending :
      (of : String → Type 0) (k : String) (rest : List String) (ms : List Stored)
      → All (ChatPending of (k ∷ rest)) ms
      → All (ChatPending of rest) (move_messages k (resolve k) ms)
  unfolding move_messages delete
  move_messages-Pending of k rest ms h =
      All-keep_both (ChatPending of (k ∷ rest)) (ChatPending of rest) (λ m. not (m.chat_jid == k))
        (λ m p q i. Pending-here resolve k rest m.chat_jid (p i) (ground (arith, q))) _
        (All-update (ChatPending of (k ∷ rest)) (ChatPending of (k ∷ rest)) (moves k (resolve k) ms)
          (to_chat (resolve k)) (λ m p q i. Pending-clear resolve (resolve k) (k ∷ rest) (phones k))
          (λ m p q. p) ms h)

  fold_chat-ChatPending :
      (of : String → Type 0) (c : Chat) (rest : List String) (f : Folding)
      → All (ChatPending of (c.jid ∷ rest)) f.0.messages
      → All (ChatPending of rest) (fold_chat resolve c f).0.messages
  unfolding fold_chat
  fold_chat-ChatPending of c rest (db, stats) h = elim (Bool-cases (resolve c.jid == "")) [
    | inl unknown ↦
        rw (unknown, fold_chat)
          (All-map (λ m p i. Pending-skip resolve c.jid rest m.chat_jid unknown (p i)) db.messages
            h)
    | inr known ↦ rw (known, fold_chat) (move_messages-Pending of c.jid rest db.messages h)
  ]

  pub fold_chats-ChatClear :
      (of : String → Type 0) (cs : List Chat) (f : Folding)
      → All (ChatPending of (map (λ c. c.jid) cs)) f.0.messages
      → All (λ m. of m.chat_jid → Clear resolve m.chat_jid) (fold_chats resolve cs f).0.messages
  unfolding fold_chats
  fold_chats-ChatClear of [] f h =
      All-map (λ m p i. Pending-done resolve m.chat_jid (p i)) f.0.messages h
  fold_chats-ChatClear of (c ∷ cs) f h =
      fold_chats-ChatClear of cs (fold_chat resolve c f)
        (fold_chat-ChatPending of c (map (λ x. x.jid) cs) f h)

  -- The senders' pass leaves the chats of the messages alone.
  fold_sender-chats :
      (P : String → Type 0) (k : String) (f : Folding)
      → All (λ m. P m.chat_jid) f.0.messages
      → All (λ m. P m.chat_jid) (fold_sender resolve k f).0.messages
  unfolding fold_sender
  fold_sender-chats P k (db, stats) h = elim (Bool-cases (named resolve k == "")) [
    | inl unknown ↦ rw (unknown, fold_sender) h
    | inr known ↦
        rw (known, fold_sender)
          (All-update (λ m. P m.chat_jid) (λ m. P m.chat_jid) (λ m. m.sender_jid == k)
            (to_sender (named resolve k)) (λ m p q. p) (λ m p q. p) db.messages h)
  ]

  pub fold_senders-chats :
      (P : String → Type 0) (ks : List String) (f : Folding)
      → All (λ m. P m.chat_jid) f.0.messages
      → All (λ m. P m.chat_jid) (fold_senders resolve ks f).0.messages
  unfolding fold_senders
  fold_senders-chats P [] f h = h
  fold_senders-chats P (k ∷ ks) f h =
      fold_senders-chats P ks (fold_sender resolve k f) (fold_sender-chats P k f h)
