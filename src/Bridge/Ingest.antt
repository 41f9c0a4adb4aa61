-- ===== src/Bridge/Ingest.antt =====
-- internal/bridge/events.go: what each event of WhatsApp writes to the store. A handler answers
-- the writes that it makes, in order, and the LID cache that it leaves. A write that fails is
-- counted, and changes nothing else here.
pub mod Taught
pub mod Keys
pub mod Pairs
pub mod History
use Prim.Native.String
use whatsapp_connect_mcp.Prelude.{
  ℕ, suc, String, Bool, true, false, not, ◌&&◌, ◌||◌, Option, none, some, List, [], ◌∷◌, ◌++◌, ◌==◌,
  if◌then◌else◌, Result, ok, err,
}
use whatsapp_connect_mcp.Prelude.Int.{ℤ}
use whatsapp_connect_mcp.Prelude.Text.{all_digits}
use whatsapp_connect_mcp.Prelude.Dict.{Dict}
use whatsapp_connect_mcp.Store.Types.{Message, CallLog, Db}
use whatsapp_connect_mcp.Store.Ingest.Laws.{Write, apply_all}
use whatsapp_connect_mcp.Bridge.Addresses.{
  Addresses, Session, MessageSource, is_hidden, is_phone, phone_jid, phone_jid_string, remember_lid,
  chat_pairing,
}
use whatsapp_connect_mcp.Bridge.Content
use whatsapp_connect_mcp.Bridge.Content.{Decoded, unwrap_message, payload, decode}

-- proto.Marshal, strings.TrimSpace and strings.ToLower.
pub record Host : Type 0 where
  pub marshal : Content.Message → Option String
  pub trim_space : String → String
  pub to_lower : String → String

-- events.Message, with the parts of its types.MessageInfo.
pub record MessageEvent (J : Type 0) : Type 0 where
  pub source : MessageSource J
  pub id : String
  pub push_name : String
  pub at : ℤ
  pub message : Content.Message

pub data ReceiptType : Type 0 where
  read read_self other : ReceiptType

pub record ReceiptEvent (J : Type 0) : Type 0 where
  pub type : ReceiptType
  pub chat : J
  pub message_ids : List String
  pub at : ℤ

pub record CallEvent (J : Type 0) : Type 0 where
  pub call_id : String
  pub from : J
  pub at : ℤ

-- What the handlers of one event leave: the writes, and the cache.
abbrev pub Ingested : Type 0 → Type 0
Ingested J = List Write × Dict J

-- callStatus
unfoldable pub call_status : Host → String → String
call_status host reason =
    let r = host.to_lower reason in
    if r == "timeout"
    then "missed"
    else if r == "reject" || (r == "decline" || r == "busy")
    then "rejected"
    else "unknown"

abbrev pub sender_mappings : String × (String × String) → List Write
sender_mappings (exact, (bare, pn)) =
    if pn == ""
    then []
    else Write.lid_mapping exact pn ∷ (if bare == exact then [] else Write.lid_mapping bare pn ∷ [])

module _ {J : Type 0} (a : Addresses J) where
  abbrev digits_of : J → String
  digits_of j =
      if a.user j == "" || not (is_phone a j)
      then ""
      else if all_digits (a.user j)
      then a.user j
      else ""

  unfoldable pub phone_from_jid : String → String
  phone_from_jid jid = elim (a.parse jid) [ none ↦ "" | some j ↦ digits_of j ]

  -- lidPairing: the LID as it stands, its bare form, and the bare phone JID.
  unfoldable pub lid_pairing : MessageSource J → String × (String × String)
  lid_pairing src =
      let lid = a.to_string (a.to_non_ad src.sender_alt) in
      if is_hidden a src.sender && is_phone a src.sender_alt
      then (a.to_string src.sender, (a.to_string (a.to_non_ad src.sender), lid))
      else if is_hidden a src.sender_alt && is_phone a src.sender
      then (lid, (lid, a.to_string (a.to_non_ad src.sender)))
      else ("", ("", ""))

  abbrev chat_name : MessageEvent J → String
  chat_name e = if not e.source.is_group && not e.source.is_from_me then e.push_name else ""

  abbrev pub chat_mappings : Option (J × J) → List Write
  chat_mappings none = []
  chat_mappings (some (lid, phone)) = Write.lid_mapping (a.to_string lid) (a.to_string phone) ∷ []

  abbrev pub remember_chat : Option (J × J) → Dict J → Dict J
  remember_chat none cache = cache
  remember_chat (some (lid, phone)) cache = remember_lid a lid phone cache

  abbrev pub remember_sender : MessageSource J → String → Dict J → Dict J
  remember_sender src pn cache =
      if pn == ""
      then cache
      else remember_lid a src.sender_alt src.sender (remember_lid a src.sender src.sender_alt cache)

  -- What the pairings of a message teach the cache, before its addresses are looked up.
  unfoldable pub learn : MessageSource J → Dict J → Dict J
  unfolding lid_pairing
  learn src cache =
      remember_chat (chat_pairing a src) (remember_sender src (lid_pairing src).1.1 cache)

  abbrev pub push_name_writes : MessageEvent J → String → String → List Write
  push_name_writes e sender pn =
      if e.source.is_from_me || e.push_name == ""
      then []
      else Write.contact sender (phone_from_jid sender) e.push_name "" ""
        ∷ (if pn == "" || pn == sender
            then []
            else Write.contact pn (phone_from_jid pn) e.push_name "" "" ∷ [])

module _ {J : Type 0} (a : Addresses J) (host : Host) where
  -- decodeMessage: the row, with the addresses as they came.
  unfoldable pub decode_message : MessageEvent J → Message
  unfolding decode
  decode_message e =
      let m = unwrap_message e.message in
      let d = decode host.trim_space (payload m) in
      record {
        chat_jid = a.to_string e.source.chat;
        id = e.id;
        sender_jid = a.to_string e.source.sender;
        from_me = e.source.is_from_me;
        ts = e.at;
        kind = d.kind;
        text = d.text;
        quoted_id = d.quoted_id;
        media_ref = if d.media then host.marshal m else none;
        media_filename = d.media_filename;
      }

  module _ (session : Session J) where
    -- ingestMessage
    unfoldable pub ingest_message : MessageEvent J → Dict J → Ingested J
    unfolding lid_pairing learn decode_message
    ingest_message e cache =
        let pairing = lid_pairing a e.source in
        let (chat, c) = phone_jid a session e.source.chat (learn a e.source cache) in
        let (sender, c') = phone_jid a session e.source.sender c in
        let chat_key = a.to_string chat in
        let sender_key = a.to_string sender in
        let m : Message = record (decode_message e) {
          chat_jid = chat_key;
          sender_jid = sender_key;
        } in
        (
          sender_mappings pairing
              ++ (chat_mappings a (chat_pairing a e.source)
                  ++ (Write.chat chat_key (chat_name a e) e.source.is_group m.ts
                      ∷ Write.message m
                      ∷ push_name_writes a e sender_key pairing.1.1)),
          c',
        )

    abbrev about : (String → List Write) → String × Dict J → Ingested J
    about f (jid, cache) = (f jid, cache)

    -- ingestReceipt, with decodeReceipt
    unfoldable pub ingest_receipt : ReceiptEvent J → Dict J → Ingested J
    ingest_receipt e cache =
        let done =
          about (λ jid. Write.reads jid e.message_ids e.at ∷ [])
            (phone_jid_string a session (a.to_string e.chat) cache) in
        elim e.type [ read ↦ done | read_self ↦ done | other ↦ ([], cache) ]

    -- ingestCall of a decoded offer, accept or terminate
    unfoldable pub ingest_call : CallEvent J → String → Dict J → Ingested J
    ingest_call e status cache =
        about
          (λ jid.
            Write.call (record {
              id = e.call_id;
              peer_jid = jid;
              ts = e.at;
              direction = "incoming";
              status = status;
              is_video = false;
            })
            ∷ [])
          (phone_jid_string a session (a.to_string e.from) cache)

    unfoldable pub ingest_contact : J → String → Dict J → Ingested J
    ingest_contact jid full_name cache =
        let done =
          about (λ jid. Write.contact jid (phone_from_jid a jid) "" full_name "" ∷ [])
            (phone_jid_string a session (a.to_string jid) cache) in
        if full_name == "" then ([], cache) else done

    unfoldable pub ingest_push_name : J → String → Dict J → Ingested J
    ingest_push_name jid push_name cache =
        let done =
          about (λ jid. Write.contact jid (phone_from_jid a jid) push_name "" "" ∷ [])
            (phone_jid_string a session (a.to_string jid) cache) in
        if push_name == "" then ([], cache) else done

    -- The name is absent where the change of the group was no renaming.
    unfoldable pub ingest_group_info_name : J → Option String → ℤ → Dict J → Ingested J
    ingest_group_info_name jid none at cache = ([], cache)
    ingest_group_info_name jid (some name) at cache =
        if name == "" then ([], cache) else (Write.chat (a.to_string jid) name true at ∷ [], cache)
