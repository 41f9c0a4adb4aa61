-- ===== src/Store/Fold/Settles.antt =====
-- The passes of FoldLIDs in internal/store/fold.go, one by one: which LIDs are still to be visited.
use whatsapp_connect_mcp.Prelude.{
  String, Bool, true, false, not, ◌&&◌, List, [], ◌∷◌, ◌==◌, ◌≡◌, refl, arith, eq_iff, keep,
  contains, map, All, All-map, inl, inr, Bool-cases,
}
use whatsapp_connect_mcp.Prelude.Table.{delete, All-upsert, All-update, All-keep_both}
use whatsapp_connect_mcp.Store.Types.{Chat, Contact}
use whatsapp_connect_mcp.Store.Ingest.{is_chat, is_contact}
use whatsapp_connect_mcp.Store.Fold.{
  is_lid, bare_lid, to_sender, inherit_chat, renamed_chat, Folding, fold_chat, fold_chats, distinct,
  fold_sender, fold_senders, fold_contact, fold_contacts, fold_call, fold_calls,
}

-- A LID that `r` can name.
abbrev pub resolvable : (String → String) → String → Bool
resolvable r jid = is_lid jid && not (r jid == "")

-- Still to be visited, if it is resolvable.
abbrev pub Pending : (String → String) → List String → String → Type 0
Pending r rest jid = resolvable r jid ≡ true → contains rest jid ≡ true

abbrev pub Clear : (String → String) → String → Type 0
Clear r jid = resolvable r jid ≡ false

contains-distinct : (xs : List String) (k : String) → contains (distinct xs) k ≡ contains xs k
unfolding distinct
contains-distinct [] k = refl
contains-distinct (x ∷ xs) k =
    ground (arith, contains-distinct xs k, contains-distinct xs x, eq_iff x k)

module _ (r : String → String) where
  pub Pending-here :
      (k : String) (rest : List String) (jid : String)
      → Pending r (k ∷ rest) jid
      → (jid == k) ≡ false
      → Pending r rest jid
  Pending-here k rest jid h other p = ground (arith, h p, eq_iff k jid, eq_iff jid k)

  pub Pending-skip :
      (k : String) (rest : List String) (jid : String)
      → (r k == "") ≡ true
      → Pending r (k ∷ rest) jid
      → Pending r rest jid
  Pending-skip k rest jid none_for h p = ground (arith, h p, eq_iff k jid)

  pub Pending-clear : (jid : String) (rest : List String) → is_lid jid ≡ false → Pending r rest jid
  Pending-clear jid rest c p = ground arith

  pub Pending-done : (jid : String) → Pending r [] jid → Clear r jid
  Pending-done jid h = elim (Bool-cases (resolvable r jid)) [
    | inl p ↦ absurd (cc (h p))
    | inr p ↦ p
  ]

  -- At the start every LID is on the list.
  pub Pending-start :
      {A : Type 0} (key : A → String) (xs : List A)
      → All (λ x. Pending r (map key (keep (λ y. is_lid (key y)) xs)) (key x)) xs
  Pending-start key [] = tt
  Pending-start key (x ∷ xs) = elim (Bool-cases (is_lid (key x))) [
    | inl e ↦ rw e (
      λ p. ground (arith, eq_iff (key x) (key x)),
      All-map (λ y h p. ground (arith, h p, e)) xs (Pending-start key xs),
    )
    | inr e ↦ rw e (λ p. ground arith, All-map (λ y h p. rw e (h p)) xs (Pending-start key xs))
  ]

  -- Of the chats that there are, every LID is on the list.
  pub Pending-chats :
      (jids : List Chat) (jid : String)
      → contains (map (λ c. c.jid) jids) jid ≡ true
      → Pending r (map (λ c. c.jid) (keep (λ c. is_lid c.jid) jids)) jid
  Pending-chats [] jid h p = ground (arith, h)
  Pending-chats (c ∷ cs) jid h p = elim (Bool-cases (is_lid c.jid)) [
    | inl e ↦ rw e (elim (Bool-cases (c.jid == jid)) [
      | inl s ↦ ground (arith, s)
      | inr s ↦ ground (arith, s, Pending-chats cs jid (ground (arith, h, s)) p)
    ])
    | inr e ↦ rw e (Pending-chats cs jid (ground (arith, h, e, p, eq_iff c.jid jid)) p)
  ]

  -- The same where the list holds each identity once.
  Pending-keys :
      {A : Type 0} (key : A → String) (xs : List A)
      → All (λ x. Pending r (keep is_lid (map key xs)) (key x)) xs
  Pending-keys key [] = tt
  Pending-keys key (x ∷ xs) = elim (Bool-cases (is_lid (key x))) [
    | inl e ↦ rw e (
      λ p. ground (arith, eq_iff (key x) (key x)),
      All-map (λ y h p. ground (arith, h p, e)) xs (Pending-keys key xs),
    )
    | inr e ↦ rw e (λ p. ground arith, All-map (λ y h p. rw e (h p)) xs (Pending-keys key xs))
  ]

  pub Pending-distinct :
      {A : Type 0} (key : A → String) (xs : List A)
      → All (λ x. Pending r (distinct (keep is_lid (map key xs))) (key x)) xs
  Pending-distinct key xs =
      All-map (λ x h p. rw (contains-distinct (keep is_lid (map key xs)) (key x)) (h p)) xs
        (Pending-keys key xs)

-- The other tables are keyed by identities that may carry a device suffix.
abbrev pub named : (String → String) → String → String
named r jid = r (bare_lid jid)

module _ (resolve : String → String) (phones : (l : String) → is_lid (resolve l) ≡ false) where
  fold_chat-Pending :
      (c : Chat) (rest : List String) (f : Folding)
      → All (λ x. Pending resolve (c.jid ∷ rest) x.jid) f.0.chats
      → All (λ x. Pending resolve rest x.jid) (fold_chat resolve c f).0.chats
  unfolding fold_chat delete
  fold_chat-Pending c rest (db, stats) h = elim (Bool-cases (resolve c.jid == "")) [
    | inl unknown ↦
        rw (unknown, fold_chat)
          (All-map (λ x. Pending-skip resolve c.jid rest x.jid unknown) db.chats h)
    | inr known ↦
        rw (known, fold_chat)
          (All-keep_both (λ x. Pending resolve (c.jid ∷ rest) x.jid)
            (λ x. Pending resolve rest x.jid) (λ x. not (is_chat c.jid x))
            (λ x p q. Pending-here resolve c.jid rest x.jid p (ground arith)) _
            (All-upsert (λ x. Pending resolve (c.jid ∷ rest) x.jid) (is_chat (resolve c.jid))
              (inherit_chat c) (renamed_chat (resolve c.jid) c)
              (Pending-clear resolve (resolve c.jid) (c.jid ∷ rest) (phones c.jid)) (λ x p. p)
              db.chats h))
  ]

  pub fold_chats-Clear :
      (cs : List Chat) (f : Folding)
      → All (λ x. Pending resolve (map (λ c. c.jid) cs) x.jid) f.0.chats
      → All (λ x. Clear resolve x.jid) (fold_chats resolve cs f).0.chats
  unfolding fold_chats
  fold_chats-Clear [] f h = All-map (λ x. Pending-done resolve x.jid) f.0.chats h
  fold_chats-Clear (c ∷ cs) f h =
      fold_chats-Clear cs (fold_chat resolve c f) (fold_chat-Pending c (map (λ x. x.jid) cs) f h)

  fold_contact-Pending :
      (c : Contact) (rest : List String) (f : Folding)
      → All (λ x. Pending (named resolve) (c.jid ∷ rest) x.jid) f.0.contacts
      → All (λ x. Pending (named resolve) rest x.jid) (fold_contact resolve c f).0.contacts
  unfolding fold_contact delete
  fold_contact-Pending c rest (db, stats) h = elim (Bool-cases (named resolve c.jid == "")) [
    | inl unknown ↦
        rw (unknown, fold_contact)
          (All-map (λ x. Pending-skip (named resolve) c.jid rest x.jid unknown) db.contacts h)
    | inr known ↦
        rw (known, fold_contact)
          (All-keep_both (λ x. Pending (named resolve) (c.jid ∷ rest) x.jid)
            (λ x. Pending (named resolve) rest x.jid) (λ x. not (is_contact c.jid x))
            (λ x p q. Pending-here (named resolve) c.jid rest x.jid p (ground arith)) _
            (All-upsert (λ x. Pending (named resolve) (c.jid ∷ rest) x.jid)
              (is_contact (named resolve c.jid)) _ _
              (Pending-clear (named resolve) (named resolve c.jid) (c.jid ∷ rest)
                (phones (bare_lid c.jid)))
              (λ x p. p) db.contacts h))
  ]

  pub fold_contacts-Clear :
      (cs : List Contact) (f : Folding)
      → All (λ x. Pending (named resolve) (map (λ c. c.jid) cs) x.jid) f.0.contacts
      → All (λ x. Clear (named resolve) x.jid) (fold_contacts resolve cs f).0.contacts
  unfolding fold_contacts
  fold_contacts-Clear [] f h = All-map (λ x. Pending-done (named resolve) x.jid) f.0.contacts h
  fold_contacts-Clear (c ∷ cs) f h =
      fold_contacts-Clear cs (fold_contact resolve c f)
        (fold_contact-Pending c (map (λ x. x.jid) cs) f h)

  fold_sender-Pending :
      (k : String) (rest : List String) (f : Folding)
      → All (λ x. Pending (named resolve) (k ∷ rest) x.sender_jid) f.0.messages
      → All (λ x. Pending (named resolve) rest x.sender_jid) (fold_sender resolve k f).0.messages
  unfolding fold_sender
  fold_sender-Pending k rest (db, stats) h = elim (Bool-cases (named resolve k == "")) [
    | inl unknown ↦
        rw (unknown, fold_sender)
          (All-map (λ x. Pending-skip (named resolve) k rest x.sender_jid unknown) db.messages h)
    | inr known ↦
        rw (known, fold_sender)
          (All-update (λ x. Pending (named resolve) (k ∷ rest) x.sender_jid)
            (λ x. Pending (named resolve) rest x.sender_jid) (λ m. m.sender_jid == k)
            (to_sender (named resolve k))
            (λ x p q. Pending-clear (named resolve) (named resolve k) rest (phones (bare_lid k)))
            (λ x p q. Pending-here (named resolve) k rest x.sender_jid p q) db.messages h)
  ]

  pub fold_senders-Clear :
      (ks : List String) (f : Folding)
      → All (λ x. Pending (named resolve) ks x.sender_jid) f.0.messages
      → All (λ x. Clear (named resolve) x.sender_jid) (fold_senders resolve ks f).0.messages
  unfolding fold_senders
  fold_senders-Clear [] f h =
      All-map (λ x. Pending-done (named resolve) x.sender_jid) f.0.messages h
  fold_senders-Clear (k ∷ ks) f h =
      fold_senders-Clear ks (fold_sender resolve k f) (fold_sender-Pending k ks f h)

  fold_call-Pending :
      (k : String) (rest : List String) (f : Folding)
      → All (λ x. Pending (named resolve) (k ∷ rest) x.peer_jid) f.0.calls
      → All (λ x. Pending (named resolve) rest x.peer_jid) (fold_call resolve k f).0.calls
  unfolding fold_call
  fold_call-Pending k rest (db, stats) h = elim (Bool-cases (named resolve k == "")) [
    | inl unknown ↦
        rw (unknown, fold_call)
          (All-map (λ x. Pending-skip (named resolve) k rest x.peer_jid unknown) db.calls h)
    | inr known ↦
        rw (known, fold_call)
          (All-update (λ x. Pending (named resolve) (k ∷ rest) x.peer_jid)
            (λ x. Pending (named resolve) rest x.peer_jid) (λ c. c.peer_jid == k)
            (λ x. record x { peer_jid = named resolve k })
            (λ x p q. Pending-clear (named resolve) (named resolve k) rest (phones (bare_lid k)))
            (λ x p q. Pending-here (named resolve) k rest x.peer_jid p q) db.calls h)
  ]

  pub fold_calls-Clear :
      (ks : List String) (f : Folding)
      → All (λ x. Pending (named resolve) ks x.peer_jid) f.0.calls
      → All (λ x. Clear (named resolve) x.peer_jid) (fold_calls resolve ks f).0.calls
  unfolding fold_calls
  fold_calls-Clear [] f h = All-map (λ x. Pending-done (named resolve) x.peer_jid) f.0.calls h
  fold_calls-Clear (k ∷ ks) f h =
      fold_calls-Clear ks (fold_call resolve k f) (fold_call-Pending k ks f h)
