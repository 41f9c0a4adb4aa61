-- ===== src/Store/Fold/Settled.antt =====
-- FoldLIDs of internal/store/fold.go as a whole: its four passes one after the other.
use whatsapp_connect_mcp.Prelude.{
  String, true, false, contains, map, keep, List, All-map, [], ◌∷◌, ◌==◌, ◌≡◌, refl, All, inl, inr,
  Bool-cases, ◌∙◌, sym, subst,
}
use whatsapp_connect_mcp.Store.Types.{Contact, Db}
use whatsapp_connect_mcp.Store.Fold.{
  is_lid, bare_lid, Folding, no_stats, fold_sender, fold_senders, fold_contact, fold_contacts,
  fold_call, fold_calls, chat_pass, sender_pass, contact_pass, fold_lids,
}
use whatsapp_connect_mcp.Store.Fold.Messages.{fold_senders-chats, fold_chats-ChatClear, ChatPending}
use whatsapp_connect_mcp.Store.Fold.Settles.{
  Clear, named, Pending-start, Pending-distinct, fold_chats-Clear, fold_contacts-Clear,
  fold_senders-Clear, fold_calls-Clear, Pending-chats,
}

-- What a pass over the senders, the contacts or the calls leaves alone.
abbrev SameChats : Folding → Folding → Type 0
SameChats f g = f.0.chats ≡ g.0.chats

abbrev SameMessages : Folding → Folding → Type 0
SameMessages f g = f.0.messages ≡ g.0.messages

abbrev SameContacts : Folding → Folding → Type 0
SameContacts f g = f.0.contacts ≡ g.0.contacts

module _ (r : String → String) where
  fold_sender_others : (k : String) (f : Folding) → SameChats (fold_sender r k f) f
  unfolding fold_sender
  fold_sender_others k (db, stats) = elim (Bool-cases (r (bare_lid k) == "")) [
    | inl e ↦ rw (e, fold_sender) refl
    | inr e ↦ rw (e, fold_sender) refl
  ]

  fold_senders_others : (ks : List String) (f : Folding) → SameChats (fold_senders r ks f) f
  unfolding fold_senders
  fold_senders_others [] f = refl
  fold_senders_others (k ∷ ks) f =
      fold_senders_others ks (fold_sender r k f) ∙ fold_sender_others k f

  fold_contact_others :
      (c : Contact) (f : Folding)
      → SameChats (fold_contact r c f) f × SameMessages (fold_contact r c f) f
  unfolding fold_contact
  fold_contact_others c (db, stats) = elim (Bool-cases (r (bare_lid c.jid) == "")) [
    | inl e ↦ rw (e, fold_contact) (refl, refl)
    | inr e ↦ rw (e, fold_contact) (refl, refl)
  ]

  fold_contacts_others :
      (cs : List Contact) (f : Folding)
      → SameChats (fold_contacts r cs f) f × SameMessages (fold_contacts r cs f) f
  unfolding fold_contacts
  fold_contacts_others [] f = (refl, refl)
  fold_contacts_others (c ∷ cs) f =
      let rest = fold_contacts_others cs (fold_contact r c f) in
      let here = fold_contact_others c f in (rest.0 ∙ here.0, rest.1 ∙ here.1)

  fold_call_others :
      (k : String) (f : Folding)
      → SameChats (fold_call r k f) f
        × (SameMessages (fold_call r k f) f × SameContacts (fold_call r k f) f)
  unfolding fold_call
  fold_call_others k (db, stats) = elim (Bool-cases (r (bare_lid k) == "")) [
    | inl e ↦ rw (e, fold_call) (refl, (refl, refl))
    | inr e ↦ rw (e, fold_call) (refl, (refl, refl))
  ]

  fold_calls_others :
      (ks : List String) (f : Folding)
      → SameChats (fold_calls r ks f) f
        × (SameMessages (fold_calls r ks f) f × SameContacts (fold_calls r ks f) f)
  unfolding fold_calls
  fold_calls_others [] f = (refl, (refl, refl))
  fold_calls_others (k ∷ ks) f =
      let rest = fold_calls_others ks (fold_call r k f) in
      let here = fold_call_others k f in
      (rest.0 ∙ here.0, (rest.1.0 ∙ here.1.0, rest.1.1 ∙ here.1.1))

All-of : {A : Type 0} {P : A → Type 0} → ((x : A) → P x) → (xs : List A) → All P xs
All-of f [] = tt
All-of f (x ∷ xs) = (f x, All-of f xs)

-- The chats of a database, as a list of their identities.
abbrev pub chat_jids : Db → List String
chat_jids db = map (λ c. c.jid) db.chats

-- No table holds an identity that the lookup can name; of the chats that messages are in, those
-- that had a row before.
abbrev pub Settled : (String → String) → Db → Db → Type 0
Settled r before db =
    All (λ c. Clear r c.jid) db.chats
    × (All (λ m. contains (chat_jids before) m.chat_jid ≡ true → Clear r m.chat_jid) db.messages
        × (All (λ m. Clear (named r) m.sender_jid) db.messages
            × (All (λ c. Clear (named r) c.jid) db.contacts
                × All (λ x. Clear (named r) x.peer_jid) db.calls)))

-- The same, of all the chats that messages are in.
abbrev pub Resolved : (String → String) → Db → Type 0
Resolved r db =
    All (λ c. Clear r c.jid) db.chats
    × (All (λ m. Clear r m.chat_jid) db.messages
        × (All (λ m. Clear (named r) m.sender_jid) db.messages
            × (All (λ c. Clear (named r) c.jid) db.contacts
                × All (λ x. Clear (named r) x.peer_jid) db.calls)))

-- Every message is in a chat that has a row.
abbrev pub Housed : Db → Type 0
Housed db = All (λ m. contains (chat_jids db) m.chat_jid ≡ true) db.messages

module _ (r : String → String) (phones : (l : String) → is_lid (r l) ≡ false) (db : Db) where
  messages_settle :
      (of : String → Type 0)
      → All
          (ChatPending r phones of (map (λ c. c.jid) (keep (λ c. is_lid c.jid) db.chats)))
          db.messages
      → All (λ m. of m.chat_jid → Clear r m.chat_jid) (fold_lids r db).0.messages
  unfolding fold_lids
  messages_settle of start =
      let f : Folding = chat_pass r (db, no_stats) in
      let g : Folding = sender_pass r f in
      let h : Folding = contact_pass r g in
      let IsMoved : String → Type 0 = λ jid. of jid → Clear r jid in
      let contacts = fold_contacts_others r _ g in
      let calls = fold_calls_others r _ h in
      subst (All (λ m. IsMoved m.chat_jid)) (sym (calls.1.0 ∙ contacts.1)) (
        fold_senders-chats r phones IsMoved _ f
          (fold_chats-ChatClear r phones of _ (db, no_stats) start))

  -- Where the lookup never answers with a LID, folding leaves no LID that it can name: neither as a
  -- chat, nor as the chat of a message, if that chat had a row, nor (its device suffix aside) as a
  -- sender, a contact or the peer of a call.
  pub fold_lids_settles : Settled r db (fold_lids r db).0
  unfolding fold_lids
  fold_lids_settles =
      let f : Folding = chat_pass r (db, no_stats) in
      let g : Folding = sender_pass r f in
      let h : Folding = contact_pass r g in
      let senders = fold_senders_others r _ f in
      let contacts = fold_contacts_others r _ g in
      let calls = fold_calls_others r _ h in
      (
        subst (All (λ c. Clear r c.jid)) (sym (calls.0 ∙ (contacts.0 ∙ senders)))
            (fold_chats-Clear r phones _ (db, no_stats) (Pending-start r (λ c. c.jid) db.chats)),
        (
          messages_settle (λ jid. contains (chat_jids db) jid ≡ true)
              (All-of (λ m i. Pending-chats r db.chats m.chat_jid i) db.messages),
          (
            subst (All (λ m. Clear (named r) m.sender_jid)) (sym (calls.1.0 ∙ contacts.1)) (
                fold_senders-Clear r phones _ f
                  (Pending-distinct (named r) (λ m. m.sender_jid) f.0.messages)),
            (
              subst (All (λ c. Clear (named r) c.jid)) (sym calls.1.1) (
                  fold_contacts-Clear r phones _ g
                    (Pending-start (named r) (λ c. c.jid) g.0.contacts)),
              fold_calls-Clear r phones _ h
                  (Pending-distinct (named r) (λ x. x.peer_jid) h.0.calls),
            ),
          ),
        ),
      )

  -- The same with every message in a chat that had a row.
  pub fold_lids_resolves : Housed db → Resolved r (fold_lids r db).0
  fold_lids_resolves housed =
      let settled = fold_lids_settles in
      let messages =
        messages_settle (λ jid. Unit)
          (All-map (λ m i _. Pending-chats r db.chats m.chat_jid i) db.messages housed) in
      (settled.0, (All-map (λ m i. i tt) _ messages, settled.1.1))
