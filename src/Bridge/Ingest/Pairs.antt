-- ===== src/Bridge/Ingest/Pairs.antt =====
-- ingestMessage of internal/bridge/events.go on a message that carries both addresses of its sender.
use whatsapp_connect_mcp.Prelude.{
  String, true, not, ◌||◌, Option, none, some, List, [], ◌∷◌, ◌++◌, ◌==◌, ◌≡◌, refl, arith, eq_iff,
  Bool-cases, inl, inr, ap,
}
use whatsapp_connect_mcp.Prelude.Dict.{Dict, lookup, insert, lookup-insert}
use whatsapp_connect_mcp.Store.Types.{Message}
use whatsapp_connect_mcp.Store.Ingest.Laws.{Write, message}
use whatsapp_connect_mcp.Bridge.Addresses.{
  Addresses, IsAddresses, Session, MessageSource, is_hidden, is_phone, key, phone_jid, remember_lid,
  chat_pairing,
}
use whatsapp_connect_mcp.Bridge.Addresses.Stable.{
  phone_jid-hit, phone_jid-other, phone_jid-cached, alt_not_hidden, bare_named,
}
use whatsapp_connect_mcp.Bridge.Ingest.{
  Host, MessageEvent, sender_mappings, chat_mappings, remember_chat, remember_sender, learn,
  push_name_writes, lid_pairing, ingest_message, decode_message,
}

-- The rows of messages among the writes.
abbrev pub stored : List Write → List Message
stored [] = []
stored (message m ∷ ws) = m ∷ stored ws
stored (_ ∷ ws) = stored ws

stored-append : (xs ys : List Write) → stored (xs ++ ys) ≡ stored xs ++ stored ys
stored-append [] ys = refl
stored-append (Write.message m ∷ xs) ys = ap (λ ms. m ∷ ms) (stored-append xs ys)
stored-append (Write.chat a b c d ∷ xs) ys = stored-append xs ys
stored-append (Write.contact a b c d e ∷ xs) ys = stored-append xs ys
stored-append (Write.lid_mapping a b ∷ xs) ys = stored-append xs ys
stored-append (Write.reads a b c ∷ xs) ys = stored-append xs ys
stored-append (Write.call a ∷ xs) ys = stored-append xs ys

module _ {J : Type 0} (a : Addresses J) (laws : IsAddresses a) (session : Session J) where
  stored-mappings : (p : String × (String × String)) → stored (sender_mappings p) ≡ []
  stored-mappings (exact, (bare, pn)) = ground arith

  stored-chat : (o : Option (J × J)) → stored (chat_mappings a o) ≡ []
  stored-chat none = refl
  stored-chat (some (lid, phone)) = refl

  stored-names :
      (e : MessageEvent J) (sender pn : String) → stored (push_name_writes a e sender pn) ≡ []
  stored-names e sender pn = ground arith

  -- The pairing of the chat, if it is about the same LID, names the same number.
  abbrev pub Agrees : MessageSource J → Option (J × J) → Type 0
  Agrees src none = Unit
  Agrees src (some (lid, phone)) =
      key a lid ≡ key a src.sender → a.to_non_ad phone ≡ a.to_non_ad src.sender_alt

  remember_chat-sender :
      (src : MessageSource J) (o : Option (J × J)) (c : Dict J)
      → Agrees src o
      → lookup (key a src.sender) c ≡ some (a.to_non_ad src.sender_alt)
      → lookup (key a src.sender) (remember_chat a o c) ≡ some (a.to_non_ad src.sender_alt)
  unfolding remember_lid
  remember_chat-sender src none c h e = e
  remember_chat-sender src (some (lid, phone)) c h e =
      elim (Bool-cases (not (is_hidden a lid) || not (is_phone a phone))) [
        | inl skip ↦ rw skip e
        | inr kept ↦
            rw (kept, lookup-insert (key a lid) (key a src.sender) (a.to_non_ad phone) c)
              (elim (Bool-cases (key a lid == key a src.sender)) [
                | inl same ↦ rw (same, h ((eq_iff _ _).0 same)) refl
                | inr other ↦ rw other e
              ])
      ]

  remember_sender-paired :
      (src : MessageSource J) (c : Dict J)
      → is_hidden a src.sender ≡ true
      → is_phone a src.sender_alt ≡ true
      → remember_sender a src (lid_pairing a src).1.1 c
        ≡ insert (key a src.sender) (a.to_non_ad src.sender_alt) c
  unfolding lid_pairing remember_lid
  remember_sender-paired src c hid phone =
      let named = bare_named a laws session src.sender_alt phone in
      let other = alt_not_hidden a laws session src.sender_alt phone in
      ground (arith, hid, phone, named, other)

  sender_of_paired :
      (src : MessageSource J) (c : Dict J)
      → is_hidden a src.sender ≡ true
      → is_phone a src.sender_alt ≡ true
      → Agrees src (chat_pairing a src)
      → (phone_jid a session src.sender (phone_jid a session src.chat (learn a src c)).1).0
        ≡ a.to_non_ad src.sender_alt
  unfolding learn
  sender_of_paired src c hid phone agrees =
      let first : lookup (key a src.sender) (remember_sender a src (lid_pairing a src).1.1 c)
          ≡ some (a.to_non_ad src.sender_alt) =
        rw
          (
            remember_sender-paired src c hid phone,
            lookup-insert (key a src.sender) (key a src.sender) (a.to_non_ad src.sender_alt) c,
          )
          (ground (arith, eq_iff (key a src.sender) (key a src.sender))) in
      let known = remember_chat-sender src (chat_pairing a src) _ agrees first in
      ap (λ p. p.0)
        (phone_jid-hit a laws session src.sender _ hid
          (phone_jid-cached a laws session (key a src.sender) src.chat (learn a src c) known))

  -- A message from a LID that also carries the sender's phone JID is stored as one row, under the
  -- phone JID without a device. A message from a phone JID is stored under it as it came, with the
  -- device if it has one. The first holds unless the message pairs the same LID, as the LID of its
  -- chat, with another number.
  pub paired_sender :
      (host : Host) (e : MessageEvent J) (c : Dict J)
      → (m : Message) × (stored (ingest_message a host session e c).0 ≡ m ∷ [])
        × (is_phone a e.source.sender ≡ true → m.sender_jid ≡ a.to_string e.source.sender)
        × (is_hidden a e.source.sender ≡ true
            → is_phone a e.source.sender_alt ≡ true
            → Agrees e.source (chat_pairing a e.source)
            → m.sender_jid ≡ a.to_string (a.to_non_ad e.source.sender_alt))
  unfolding ingest_message
  paired_sender host e c =
      let p = phone_jid a session e.source.chat (learn a e.source c) in
      let q = phone_jid a session e.source.sender p.1 in
      let m : Message = record (decode_message a host e) {
        chat_jid = a.to_string p.0;
        sender_jid = a.to_string q.0;
      } in
      let pairing = lid_pairing a e.source in
      let rows : stored (ingest_message a host session e c).0 ≡ m ∷ [] =
        rw
          (
            stored-append,
            stored-mappings pairing,
            stored-append,
            stored-chat (chat_pairing a e.source),
            stored-names e (a.to_string q.0) pairing.1.1,
          )
          refl in
      (
        m,
        rows,
        λ phone.
            rw
              (phone_jid-other a laws session e.source.sender p.1
                (alt_not_hidden a laws session e.source.sender phone))
              refl,
        λ hid phone agrees. ap a.to_string (sender_of_paired e.source c hid phone agrees),
      )
