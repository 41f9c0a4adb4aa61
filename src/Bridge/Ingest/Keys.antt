-- ===== src/Bridge/Ingest/Keys.antt =====
-- Under which identities ingestMessage of internal/bridge/events.go stores a message.
use whatsapp_connect_mcp.Prelude.{
  String, true, false, not, ◌||◌, Option, none, some, ◌==◌, ◌≡◌, refl, arith, eq_iff, Option-cases,
  Bool-cases, inl, inr, All, All-append, false,
}
use whatsapp_connect_mcp.Prelude.Dict.{Dict, lookup, insert, lookup-insert}
use whatsapp_connect_mcp.Store.Ingest.Laws.{Write, chat, message, contact, lid_mapping, reads, call}
use whatsapp_connect_mcp.Bridge.Addresses.{
  Addresses, IsAddresses, Session, MessageSource, is_hidden, is_phone, key, ask_session, phone_jid,
  remember_lid, chat_pairing,
}
use whatsapp_connect_mcp.Bridge.Addresses.Stable.{
  phone_jid-hit, phone_jid-miss, phone_jid-asks, phone_jid-other,
}
use whatsapp_connect_mcp.Bridge.Ingest.{
  Host, MessageEvent, sender_mappings, chat_mappings, remember_chat, remember_sender, learn,
  push_name_writes, lid_pairing, ingest_message,
}
use whatsapp_connect_mcp.Bridge.Ingest.Taught.{IsPaired, Known, ingest_message-learns}

module _ {J : Type 0} (a : Addresses J) (laws : IsAddresses a) (session : Session J) where
  -- Neither the cache nor the session store names a LID as somebody's phone number.
  abbrev pub IsPhoneCache : Dict J → Type 0
  IsPhoneCache c = (u : String) (v : J) → lookup u c ≡ some v → is_hidden a v ≡ false

  abbrev pub IsPhoneSession : Type 0
  IsPhoneSession = (j v : J) → ask_session a session j ≡ some v → is_hidden a v ≡ false

  -- A phone number, or a LID that neither of the two knows.
  abbrev pub Unresolved : Dict J → J → Type 0
  Unresolved c j =
      is_hidden a j ≡ true
      → (lookup (key a j) c ≡ none) × (ask_session a session (a.to_non_ad j) ≡ none)

  insert-IsPhoneCache :
      (u : String) (v : J) (c : Dict J)
      → IsPhoneCache c
      → is_hidden a v ≡ false
      → IsPhoneCache (insert u v c)
  insert-IsPhoneCache u v c h p w x e = ground (arith, lookup-insert u w v c, h w x, e, p)

  bare_phone : (j : J) → is_phone a j ≡ true → is_hidden a (a.to_non_ad j) ≡ false
  bare_phone j h =
      rw (laws.bare_server j, (eq_iff (a.server j) a.default_user_server).0 h) laws.servers_differ

  remember_lid-IsPhoneCache :
      (lid pn : J) (c : Dict J) → IsPhoneCache c → IsPhoneCache (remember_lid a lid pn c)
  unfolding remember_lid
  remember_lid-IsPhoneCache lid pn c h =
      elim (Bool-cases (not (is_hidden a lid) || not (is_phone a pn))) [
        | inl skip ↦ rw skip h
        | inr kept ↦ rw kept (
            insert-IsPhoneCache (key a lid) (a.to_non_ad pn) c h
              (bare_phone pn (ground (arith, kept))))
      ]

  record Looked (j : J) (c : Dict J) (p : J × Dict J) : Type 0 where
    unresolved : Unresolved p.1 p.0
    phones : IsPhoneCache p.1
    keeps : (k : J) → Unresolved c k → Unresolved p.1 k

  module _ (names : IsPhoneSession) where
    found_not_hidden : (v : J) (c : Dict J) → is_hidden a v ≡ false → Unresolved c v
    found_not_hidden v c out hid = absurd (ground (arith, out, hid))

    asked_apart :
        (j k : J) (c : Dict J) {pn : J}
        → is_hidden a j ≡ true
        → ask_session a session (a.to_non_ad j) ≡ some pn
        → Unresolved c k
        → Unresolved (insert (key a j) pn c) k
    asked_apart j k c {pn} hid s u hk = elim (Bool-cases (key a j == key a k)) [
      | inl same ↦
          let bare =
            laws.bare_unique j k ((eq_iff _ _).0 hid) ((eq_iff _ _).0 hk) ((eq_iff _ _).0 same) in
          let asked : ask_session a session (a.to_non_ad k) ≡ some pn = rw (← bare) s in
          absurd (ground (arith, asked, (u hk).1))
      | inr other ↦ (rw (lookup-insert (key a j) (key a k) pn c, other) (u hk).0, (u hk).1)
    ]

    phone_jid-Looked : (j : J) (c : Dict J) → IsPhoneCache c → Looked j c (phone_jid a session j c)
    phone_jid-Looked j c h = elim (Bool-cases (is_hidden a j)) [
      | inr out ↦
          rw (phone_jid-other a laws session j c out)
            (record { unresolved = found_not_hidden j c out; phones = h; keeps = λ k u. u })
      | inl hid ↦ elim (Option-cases (lookup (key a j) c)) [
        | inr (v, e) ↦
            rw (phone_jid-hit a laws session j c hid e)
              (record { unresolved = found_not_hidden v c (h _ v e); phones = h; keeps = λ k u. u })
        | inl e ↦ elim (Option-cases (ask_session a session (a.to_non_ad j))) [
          | inl s ↦
              rw (phone_jid-miss a laws session j c hid e s)
                (record { unresolved = λ _. (e, s); phones = h; keeps = λ k u. u })
          | inr (pn, s) ↦ rw (phone_jid-asks a laws session j c hid e s) (record {
            unresolved = found_not_hidden pn _ (names _ pn s);
            phones = insert-IsPhoneCache (key a j) pn c h (names _ pn s);
            keeps = λ k u. asked_apart j k c hid s u;
          })
        ]
      ]
    ]

    -- The rows that a write addresses by identities.
    abbrev pub Keyed : Dict J → Write → Type 0
    Keyed c (chat jid name is_group at) = (j : J) × (jid ≡ a.to_string j) × Unresolved c j
    Keyed c (message m) =
        ((j : J) × (m.chat_jid ≡ a.to_string j) × Unresolved c j)
        × ((j : J) × (m.sender_jid ≡ a.to_string j) × Unresolved c j)
    Keyed c (contact jid phone push full business) = Unit
    Keyed c (lid_mapping lid pn) = Unit
    Keyed c (reads jid ids at) = Unit
    Keyed c (call x) = Unit

    learn-IsPhoneCache :
        (src : MessageSource J) (c : Dict J) → IsPhoneCache c → IsPhoneCache (learn a src c)
    unfolding learn
    learn-IsPhoneCache src c h =
        with_chat (chat_pairing a src) _ (with_sender (lid_pairing a src).1.1)
      where
        with_sender : (pn : String) → IsPhoneCache (remember_sender a src pn c)
        with_sender pn = elim (Bool-cases (pn == "")) [
          | inl e ↦ rw e h
          | inr e ↦ rw e (
              remember_lid-IsPhoneCache src.sender_alt src.sender _
                (remember_lid-IsPhoneCache src.sender src.sender_alt c h))
        ]

        with_chat :
            (o : Option (J × J)) (d : Dict J) → IsPhoneCache d → IsPhoneCache (remember_chat a o d)
        with_chat none d k = k
        with_chat (some (lid, phone)) d k = remember_lid-IsPhoneCache lid phone d k

    sender_mappings-Keyed :
        (c : Dict J) (p : String × (String × String)) → All (Keyed c) (sender_mappings p)
    sender_mappings-Keyed c (exact, (bare, pn)) = ground arith

    chat_mappings-Keyed : (c : Dict J) (o : Option (J × J)) → All (Keyed c) (chat_mappings a o)
    chat_mappings-Keyed c none = tt
    chat_mappings-Keyed c (some (lid, phone)) = (tt, tt)

    push_name_writes-Keyed :
        (c : Dict J) (e : MessageEvent J) (sender pn : String)
        → All (Keyed c) (push_name_writes a e sender pn)
    push_name_writes-Keyed c e sender pn = ground arith

    -- Whatever a message event carries, the chat and the message are stored under phone numbers,
    -- group and other addresses, and under a LID only where neither the new cache nor the session
    -- store knows its phone number. The new cache knows every LID that this very message pairs with
    -- a number, and every one that the old cache knew.
    pub ingest_message-Keyed :
        (host : Host) (e : MessageEvent J) (c : Dict J)
        → IsPhoneCache c
        → let (ws, d) = ingest_message a host session e c in
          All (Keyed d) ws
          × IsPhoneCache d
          × ((lid : J) → IsPaired a laws session e.source lid → Known a laws session d lid)
          × ((j : J) → Known a laws session c j → Known a laws session d j)
    unfolding ingest_message
    ingest_message-Keyed host e c h =
        let learnt = learn a e.source c in
        let p = phone_jid a session e.source.chat learnt in
        let q = phone_jid a session e.source.sender p.1 in
        let first = phone_jid-Looked e.source.chat learnt (learn-IsPhoneCache e.source c h) in
        let second = phone_jid-Looked e.source.sender p.1 first.phones in
        let chat_key : (j : J) × (a.to_string p.0 ≡ a.to_string j) × Unresolved q.1 j =
          (p.0, refl, second.keeps p.0 first.unresolved) in
        let sender_key : (j : J) × (a.to_string q.0 ≡ a.to_string j) × Unresolved q.1 j =
          (q.0, refl, second.unresolved) in
        (
          All-append (Keyed q.1) (sender_mappings (lid_pairing a e.source)) _
              (sender_mappings-Keyed q.1 (lid_pairing a e.source))
              (All-append (Keyed q.1) (chat_mappings a (chat_pairing a e.source)) _
                (chat_mappings-Keyed q.1 (chat_pairing a e.source))
                (
                  chat_key,
                  (
                    (chat_key, sender_key),
                    push_name_writes-Keyed q.1 e (a.to_string q.0) (lid_pairing a e.source).1.1,
                  ),
                )),
          second.phones,
          (ingest_message-learns a laws session host e c).0,
          (ingest_message-learns a laws session host e c).1,
        )
