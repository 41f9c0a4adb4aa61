-- ===== src/Bridge/Ingest/History/Settles.antt =====
-- ingestHistorySync of internal/bridge/events.go: what a sync leaves in the store and in the cache.
use whatsapp_connect_mcp.Prelude.{
  String, Bool, Option, none, some, List, [], ◌∷◌, ◌≡◌, arith, All, All-map, Option-cases, inl, inr,
  eq_refl, subst, sym,
}
use whatsapp_connect_mcp.Prelude.Dict.{Dict}
use whatsapp_connect_mcp.Store.Types.{Db}
use whatsapp_connect_mcp.Store.Ingest.Laws.{apply_all}
use whatsapp_connect_mcp.Store.Fold.Settled.{Resolved, Housed}
use whatsapp_connect_mcp.Bridge.Addresses.{
  Addresses, IsAddresses, Session, phone_jid, fold_lookup, chat_pairing,
}
use whatsapp_connect_mcp.Bridge.Addresses.Stable.{bridge_fold_resolves}
use whatsapp_connect_mcp.Bridge.Ingest.{
  Host, MessageEvent, Ingested, ingest_message, sender_mappings, chat_mappings, push_name_writes,
  lid_pairing, learn,
}
use whatsapp_connect_mcp.Bridge.Ingest.Taught.{
  IsPaired, Known, ingest_message-learns, phone_jid-Known,
}
use whatsapp_connect_mcp.Bridge.Ingest.History.{
  Conversation, and_then, ingest_messages, ingest_chat, ingest_conversation, decode_conversation,
  ingest_conversations, ingest_history_sync,
}
use whatsapp_connect_mcp.Bridge.Ingest.History.Housed.{Follows, Follows-append, apply_all-Housed}

module _ {J M : Type 0} (a : Addresses J) (laws : IsAddresses a) (host : Host) (session : Session J)
    (parse_web_message : J → M → Option (MessageEvent J)) where
  sender_mappings-Follows : (p : String × (String × String)) → Follows [] (sender_mappings p)
  sender_mappings-Follows (exact, (bare, pn)) = ground arith

  chat_mappings-Follows : (o : Option (J × J)) → Follows [] (chat_mappings a o)
  chat_mappings-Follows none = tt
  chat_mappings-Follows (some (lid, phone)) = tt

  names-Follows :
      (known : List String) (e : MessageEvent J) (sender pn : String)
      → Follows known (push_name_writes a e sender pn)
  names-Follows known e sender pn = ground arith

  ingest_message-Follows :
      (e : MessageEvent J) (c : Dict J) → Follows [] (ingest_message a host session e c).0
  unfolding ingest_message
  ingest_message-Follows e c =
      Follows-append [] (sender_mappings (lid_pairing a e.source)) _
        (sender_mappings-Follows (lid_pairing a e.source))
        (Follows-append [] (chat_mappings a (chat_pairing a e.source)) _
          (chat_mappings-Follows (chat_pairing a e.source))
          (
            ground (
              arith,
              eq_refl (a.to_string (phone_jid a session e.source.chat (learn a e.source c)).0),
            ),
            names-Follows _ e _ (lid_pairing a e.source).1.1,
          ))

  -- What the cache knows after a part of the sync it knew before, or the part taught it.
  abbrev pub Keeps : Dict J → Dict J → Type 0
  Keeps c d = (j : J) → Known a laws session c j → Known a laws session d j

  -- The LIDs that a message pairs with a number are known.
  abbrev pub Taught : Dict J → J → Option M → Type 0
  Taught d chat none = Unit
  Taught d chat (some w) =
      (e : MessageEvent J)
      → parse_web_message chat w ≡ some e
      → (lid : J) → IsPaired a laws session e.source lid
      → Known a laws session d lid

  Taught-Keeps :
      (c d : Dict J) (chat : J) (o : Option M) → Keeps c d → Taught c chat o → Taught d chat o
  Taught-Keeps c d chat none k h = tt
  Taught-Keeps c d chat (some w) k h = λ e p lid q. k lid (h e p lid q)

  record Learns (chat : J) (ms : List (Option M)) (c : Dict J) (p : Ingested J) : Type 0 where
    follows : Follows [] p.0
    taught : All (Taught p.1 chat) ms
    keeps : Keeps c p.1

  ingest_messages-Learns :
      (chat : J) (ms : List (Option M)) (c : Dict J)
      → Learns chat ms c (ingest_messages a host session parse_web_message chat ms c)
  unfolding ingest_messages
  ingest_messages-Learns chat [] c = record { follows = tt; taught = tt; keeps = λ j h. h }
  ingest_messages-Learns chat (none ∷ ms) c =
      let rest = ingest_messages-Learns chat ms c in
      record { follows = rest.follows; taught = (tt, rest.taught); keeps = rest.keeps }
  ingest_messages-Learns chat (some w ∷ ms) c =
      let answer : Ingested J → Type 0 = Learns chat (some w ∷ ms) c in
      let all : Ingested J =
        ingest_messages a host session parse_web_message chat (some w ∷ ms) c in
      elim (Option-cases (parse_web_message chat w)) [
        | inl none_there ↦
            let rest = ingest_messages-Learns chat ms c in
            let same : ingest_messages a host session parse_web_message chat ms c ≡ all =
              ground (arith, none_there) in
            subst answer same (record {
              follows = rest.follows;
              taught = (λ e p. absurd (ground (arith, p, none_there)), rest.taught);
              keeps = rest.keeps;
            })
        | inr (e, there) ↦
            let one : Ingested J = ingest_message a host session e c in
            let rest = ingest_messages-Learns chat ms one.1 in
            let (paired, kept) = ingest_message-learns a laws session host e c in
            let same : and_then one
                  (λ d. ingest_messages a host session parse_web_message chat ms d)
                ≡ all =
              ground (arith, there) in
            let those : (e' : MessageEvent J) → parse_web_message chat w ≡ some e' → e ≡ e' =
              λ e' p. ground (arith, p, there) in
            subst answer same (record {
              follows = Follows-append [] one.0 _ (ingest_message-Follows e c) rest.follows;
              taught = (
                λ e' p lid q. rest.keeps lid (
                    paired lid
                      (subst (λ x. IsPaired a laws session x.source lid) (sym (those e' p)) q)),
                rest.taught,
              );
              keeps = λ j h. rest.keeps j (kept j h);
            })
      ]

  -- The messages of a conversation are parsed for the chat that its address is found to be.
  abbrev pub TaughtAll : Dict J → Conversation M → Type 0
  TaughtAll d conv =
      (jid : String) (is_group : Bool) (j : J)
      → decode_conversation a host session parse_web_message conv ≡ some (jid, is_group)
      → a.parse jid ≡ some j
      → (c : Dict J) × All (Taught d (phone_jid a session j c).0) conv.messages

  record Ingests (convs : List (Conversation M)) (c : Dict J) (p : Ingested J) : Type 0 where
    follows : Follows [] p.0
    taught : All (TaughtAll p.1) convs
    keeps : Keeps c p.1

  skipped :
      (conv : Conversation M) (c : Dict J)
      → ((jid : String) (is_group : Bool) (j : J)
          → decode_conversation a host session parse_web_message conv ≡ some (jid, is_group)
          → a.parse jid ≡ some j
          → ⊥)
      → Ingests (conv ∷ []) c ([], c)
  skipped conv c h = record {
    follows = tt;
    taught = (λ jid is_group j p q. absurd (h jid is_group j p q), tt);
    keeps = λ j k. k;
  }

  ingest_conversation-Ingests :
      (conv : Conversation M) (c : Dict J)
      → Ingests (conv ∷ []) c (ingest_conversation a host session parse_web_message conv c)
  unfolding ingest_conversation
  ingest_conversation-Ingests conv c =
      let answer : Ingested J → Type 0 = Ingests (conv ∷ []) c in
      let all : Ingested J = ingest_conversation a host session parse_web_message conv c in
      elim (Option-cases (decode_conversation a host session parse_web_message conv)) [
        | inl e ↦
            let same : ([], c) ≡ all = ground (arith, e) in
            subst answer same (skipped conv c (λ jid g j p q. ground (arith, p, e)))
        | inr ((jid, is_group), e) ↦ elim (Option-cases (a.parse jid)) [
          | inl n ↦
              let same : ([], c) ≡ all = ground (arith, e, n) in
              subst answer same (skipped conv c (λ jid' g j p q. ground (arith, p, e, q, n)))
          | inr (j, n) ↦
              let found = phone_jid a session j c in
              let rest = ingest_messages-Learns found.0 conv.messages found.1 in
              let part : Ingested J =
                ingest_messages a host session parse_web_message found.0 conv.messages found.1 in
              let same : ingest_chat a host session parse_web_message conv is_group found ≡ all =
                ground (arith, e, n) in
              subst answer same (record {
                follows = Follows-append (a.to_string found.0 ∷ []) [] part.0 tt rest.follows;
                taught = (
                  λ jid' g j' p q. (
                    c,
                    subst (λ x. All (Taught part.1 (phone_jid a session x c).0) conv.messages)
                        (ground (arith, e, n, p, q)) rest.taught,
                  ),
                  tt,
                );
                keeps = λ k h. rest.keeps k (phone_jid-Known a laws session j k c h);
              })
        ]
      ]

  ingest_conversations-Ingests :
      (convs : List (Conversation M)) (c : Dict J)
      → Ingests convs c (ingest_conversations a host session parse_web_message convs c)
  unfolding ingest_conversations
  ingest_conversations-Ingests [] c = record { follows = tt; taught = tt; keeps = λ j h. h }
  ingest_conversations-Ingests (conv ∷ convs) c =
      let one : Ingested J = ingest_conversation a host session parse_web_message conv c in
      let here = ingest_conversation-Ingests conv c in
      let rest = ingest_conversations-Ingests convs one.1 in
      let d = (ingest_conversations a host session parse_web_message convs one.1).1 in
      record {
        follows = Follows-append [] one.0 _ here.follows rest.follows;
        taught = (
          λ jid is_group j p q.
              let (c', taught) = here.taught.0 jid is_group j p q in
              let chat = (phone_jid a session j c').0 in
              (c', All-map (λ o h. Taught-Keeps one.1 d chat o rest.keeps h) conv.messages taught),
          rest.taught,
        );
        keeps = λ j h. rest.keeps j (here.keeps j h);
      }

  -- After a history sync into a store whose messages are all in chats that have a row, whatever the
  -- sync carried: no chat, chat of a message, sender, contact or peer of a call is left in the store
  -- that the new cache or the session store could resolve to a phone number. The new cache knows
  -- the LIDs that the old one knew, and those that the messages of the sync pair with a number.
  pub history_sync_settles :
      (convs : List (Conversation M)) (c : Dict J) (db : Db)
      → Housed db
      → let (db', d) = ingest_history_sync a host session parse_web_message convs c db in
        Resolved (fold_lookup a session d) db' × Keeps c d × All (TaughtAll d) convs
  unfolding ingest_history_sync
  history_sync_settles convs c db housed =
      let (ws, d) = ingest_conversations a host session parse_web_message convs c in
      let all = ingest_conversations-Ingests convs c in
      let written : Db = apply_all ws db in
      let here : Housed written =
        apply_all-Housed ws [] db all.follows (λ k p. absurd (ground (arith, p))) housed in
      (bridge_fold_resolves a laws session d written here, all.keeps, all.taught)
