-- ===== src/Bridge/Ingest/History.antt =====
-- ingestHistorySync of internal/bridge/events.go: the conversations of a history sync, and the
-- folding of LIDs behind them. ParseWebMessage of whatsmeow is a parameter.
pub mod Housed
pub mod Settles
use whatsapp_connect_mcp.Prelude.{
  String, Bool, Option, none, some, List, [], ◌∷◌, ◌++◌, ◌==◌, if◌then◌else◌,
}
use whatsapp_connect_mcp.Prelude.Int.{ℤ}
use whatsapp_connect_mcp.Prelude.Dict.{Dict}
use whatsapp_connect_mcp.Store.Types.{Db}
use whatsapp_connect_mcp.Store.Ingest.Laws.{Write, apply_all}
use whatsapp_connect_mcp.Bridge.Addresses.{
  Addresses, IsAddresses, Session, phone_jid, fold_lookup, bridge_fold_lids,
}
use whatsapp_connect_mcp.Bridge.Ingest.{Host, MessageEvent, Ingested, ingest_message}

-- A conversation of the sync. A message without a payload, a stub, is `none`.
pub record Conversation (M : Type 0) : Type 0 where
  pub id : String
  pub name : String
  pub at : ℤ
  pub messages : List (Option M)

abbrev pub and_then : {J : Type 0} → Ingested J → (Dict J → Ingested J) → Ingested J
and_then (ws, c) f = let (more, d) = f c in (ws ++ more, d)

module _ {J M : Type 0} (a : Addresses J) (host : Host) (session : Session J)
    (parse_web_message : J → M → Option (MessageEvent J)) where
  unfoldable pub ingest_messages : J → List (Option M) → Dict J → Ingested J
  ingest_messages chat [] c = ([], c)
  ingest_messages chat (none ∷ ms) c = ingest_messages chat ms c
  ingest_messages chat (some w ∷ ms) c = elim (parse_web_message chat w) [
    | none ↦ ingest_messages chat ms c
    | some e ↦ and_then (ingest_message a host session e c) (λ d. ingest_messages chat ms d)
  ]

  -- decodeHistorySyncConversation
  unfoldable pub decode_conversation : Conversation M → Option (String × Bool)
  decode_conversation conv = elim (a.parse conv.id) [
    | none ↦ none
    | some j ↦ if a.user j == "" then none else some (a.to_string j, a.server j == a.group_server)
  ]

  abbrev pub ingest_chat : Conversation M → Bool → J × Dict J → Ingested J
  ingest_chat conv is_group (chat, c) =
      and_then (Write.chat (a.to_string chat) conv.name is_group conv.at ∷ [], c)
        (λ d. ingest_messages chat conv.messages d)

  unfoldable pub ingest_conversation : Conversation M → Dict J → Ingested J
  unfolding decode_conversation ingest_messages
  ingest_conversation conv c = elim (decode_conversation conv) [
    | none ↦ ([], c)
    | some (jid, is_group) ↦ elim (a.parse jid) [
      | none ↦ ([], c)
      | some j ↦ ingest_chat conv is_group (phone_jid a session j c)
    ]
  ]

  unfoldable pub ingest_conversations : List (Conversation M) → Dict J → Ingested J
  ingest_conversations [] c = ([], c)
  ingest_conversations (conv ∷ convs) c =
      and_then (ingest_conversation conv c) (λ d. ingest_conversations convs d)

  unfoldable pub ingest_history_sync : List (Conversation M) → Dict J → Db → Db × Dict J
  unfolding ingest_conversations
  ingest_history_sync convs c db =
      let (ws, d) = ingest_conversations convs c in
      ((bridge_fold_lids a session d (apply_all ws db)).0, d)
