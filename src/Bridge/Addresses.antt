-- ===== src/Bridge/Addresses.antt =====
-- internal/bridge/lid.go: the phone number behind a privacy identity (LID). JIDs are whatsmeow's,
-- with the operations that the program uses; the session store's LID map is a parameter too.
pub mod Stable
use whatsapp_connect_mcp.Prelude.{
  String, Bool, true, false, not, ◌&&◌, ◌||◌, Option, none, some, List, ◌==◌, ◌≡◌, if◌then◌else◌,
  Result, ok, err,
}
use whatsapp_connect_mcp.Prelude.Dict.{Dict, lookup, insert}
use whatsapp_connect_mcp.Store.Types.{Db}
use whatsapp_connect_mcp.Store.Fold.{FoldStats, fold_lids, is_lid}

-- types.JID, with ToNonAD, String, IsEmpty, ParseJID and the names of the servers.
pub record Addresses (J : Type 0) : Type 0 where
  pub user : J → String
  pub server : J → String
  pub to_string : J → String
  pub to_non_ad : J → J
  pub is_empty : J → Bool
  pub empty : J
  pub parse : String → Option J
  pub hidden_user_server : String
  pub default_user_server : String
  pub group_server : String

-- What the program relies on of them.
pub record IsAddresses {J : Type 0} (a : Addresses J) : Type 0 where
  pub servers_differ : (a.default_user_server == a.hidden_user_server) ≡ false
  pub bare_server : (j : J) → a.server (a.to_non_ad j) ≡ a.server j
  pub bare_bare : (j : J) → a.to_non_ad (a.to_non_ad j) ≡ a.to_non_ad j
  pub bare_unique :
      (j k : J)
      → a.server j ≡ a.hidden_user_server
      → a.server k ≡ a.hidden_user_server
      → a.user (a.to_non_ad j) ≡ a.user (a.to_non_ad k)
      → a.to_non_ad j ≡ a.to_non_ad k
  pub some_text : (j : J) → a.server j ≡ a.default_user_server → (a.to_string j == "") ≡ false
  pub phone_text : (j : J) → a.server j ≡ a.default_user_server → is_lid (a.to_string j) ≡ false

-- dev.LIDs.GetPNForLID; none for an unpaired device, which has no LID map.
abbrev pub Session : Type 0 → Type 0
Session J = Option (J → Result String J)

-- types.MessageSource
pub record MessageSource (J : Type 0) : Type 0 where
  pub chat : J
  pub sender : J
  pub sender_alt : J
  pub recipient_alt : J
  pub is_from_me : Bool
  pub is_group : Bool

module _ {J : Type 0} (a : Addresses J) where
  abbrev pub is_hidden : J → Bool
  is_hidden j = a.server j == a.hidden_user_server

  abbrev pub is_phone : J → Bool
  is_phone j = a.server j == a.default_user_server

  abbrev pub key : J → String
  key j = a.user (a.to_non_ad j)

  abbrev pub usable : Result String J → Option J
  usable (err e) = none
  usable (ok pn) = if a.is_empty pn then none else some (a.to_non_ad pn)

  -- What the session store knows of a bare LID.
  unfoldable pub ask_session : Session J → J → Option J
  ask_session none bare = none
  ask_session (some get) bare = usable (get bare)

  unfoldable pub phone_jid : Session J → J → Dict J → J × Dict J
  unfolding ask_session
  phone_jid session jid cache =
      let bare = a.to_non_ad jid in
      if not (is_hidden jid) then (jid, cache) else elim (lookup (a.user bare) cache) [
        | some v ↦ (v, cache)
        | none ↦ elim (ask_session session bare) [
          | none ↦ (jid, cache)
          | some pn ↦ (pn, insert (a.user bare) pn cache)
        ]
      ]

  abbrev rendered : J × Dict J → String × Dict J
  rendered (jid, cache) = (a.to_string jid, cache)

  unfoldable pub phone_jid_string : Session J → String → Dict J → String × Dict J
  phone_jid_string session jid cache = elim (a.parse jid) [
    | none ↦ (jid, cache)
    | some parsed ↦ rendered (phone_jid session parsed cache)
  ]

  unfoldable pub remember_lid : J → J → Dict J → Dict J
  remember_lid lid pn cache =
      if not (is_hidden lid) || not (is_phone pn)
      then cache
      else insert (a.user (a.to_non_ad lid)) (a.to_non_ad pn) cache

  unfoldable pub chat_pairing : MessageSource J → Option (J × J)
  chat_pairing src =
      if src.is_group || a.is_empty src.recipient_alt
      then none
      else if is_hidden src.chat && is_phone src.recipient_alt
      then some (a.to_non_ad src.chat, a.to_non_ad src.recipient_alt)
      else if is_hidden src.recipient_alt && is_phone src.chat
      then some (a.to_non_ad src.recipient_alt, a.to_non_ad src.chat)
      else none

  abbrev pub phone_text : J → J → String
  phone_text parsed pn =
      if not (is_hidden parsed) then "" else if not (is_phone pn) then "" else a.to_string pn

  -- The lookup that FoldLIDs hands to the store, at the cache of the moment.
  unfoldable pub fold_lookup : Session J → Dict J → String → String
  fold_lookup session cache lid = elim (a.parse lid) [
    | none ↦ ""
    | some parsed ↦ phone_text parsed (phone_jid session parsed cache).0
  ]

  -- Bridge.FoldLIDs
  unfoldable pub bridge_fold_lids : Session J → Dict J → Db → Db × FoldStats
  unfolding fold_lookup
  bridge_fold_lids session cache db = fold_lids (fold_lookup session cache) db
