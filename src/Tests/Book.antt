-- ===== src/Tests/Book.antt =====
-- An address book of five JIDs, for the tests of internal/bridge.
use whatsapp_connect_mcp.Prelude.{
  String, false, none, some, ◌==◌, ◌≡◌, refl, ok, arith, eq_iff, if◌then◌else◌, ◌∙◌, sym,
}
use whatsapp_connect_mcp.Store.Fold.{is_lid}
use whatsapp_connect_mcp.Bridge.Addresses.{Addresses, IsAddresses, Session}

pub data Jid : Type 0 where
  anna anna_device anna_lid anna_lid_device nobody : Jid

abbrev pub bare : Jid → Jid
bare anna_device = anna
bare anna_lid_device = anna_lid
bare j = j

abbrev pub server : Jid → String
server anna = "s.whatsapp.net"
server anna_device = "s.whatsapp.net"
server anna_lid = "lid"
server anna_lid_device = "lid"
server nobody = ""

abbrev pub shown : Jid → String
shown anna = "4366@s.whatsapp.net"
shown anna_device = "4366:2@s.whatsapp.net"
shown anna_lid = "77@lid"
shown anna_lid_device = "77:2@lid"
shown nobody = ""

abbrev pub user : Jid → String
user anna = "4366"
user anna_device = "4366"
user anna_lid = "77"
user anna_lid_device = "77"
user nobody = ""

abbrev pub book : Addresses Jid
book = record {
  user = user;
  server = server;
  to_string = shown;
  to_non_ad = bare;
  is_empty = λ j. shown j == "";
  empty = nobody;
  parse = λ s.
      if s == "77@lid"
      then some anna_lid
      else if s == "4366@s.whatsapp.net"
      then some anna
      else none;
  hidden_user_server = "lid";
  default_user_server = "s.whatsapp.net";
  group_server = "g.us";
}

pub hidden_bare : (j : Jid) → server j ≡ "lid" → bare j ≡ anna_lid
hidden_bare anna h = absurd (ground (arith, h, eq_iff "s.whatsapp.net" "lid"))
hidden_bare anna_device h = absurd (ground (arith, h, eq_iff "s.whatsapp.net" "lid"))
hidden_bare anna_lid h = refl
hidden_bare anna_lid_device h = refl
hidden_bare nobody h = absurd (ground (arith, h, eq_iff "" "lid"))

pub bare_server : (j : Jid) → server (bare j) ≡ server j
bare_server anna = refl
bare_server anna_device = refl
bare_server anna_lid = refl
bare_server anna_lid_device = refl
bare_server nobody = refl

pub bare-bare : (j : Jid) → bare (bare j) ≡ bare j
bare-bare anna = refl
bare-bare anna_device = refl
bare-bare anna_lid = refl
bare-bare anna_lid_device = refl
bare-bare nobody = refl

pub shown_some : (j : Jid) → server j ≡ "s.whatsapp.net" → (shown j == "") ≡ false
shown_some anna h = refl
shown_some anna_device h = refl
shown_some anna_lid h = refl
shown_some anna_lid_device h = refl
shown_some nobody h = absurd (ground (arith, h, eq_iff "" "s.whatsapp.net"))

pub shown_phone : (j : Jid) → server j ≡ "s.whatsapp.net" → is_lid (shown j) ≡ false
unfolding is_lid
shown_phone anna h = refl
shown_phone anna_device h = refl
shown_phone anna_lid h = absurd (ground (arith, h, eq_iff "lid" "s.whatsapp.net"))
shown_phone anna_lid_device h = absurd (ground (arith, h, eq_iff "lid" "s.whatsapp.net"))
shown_phone nobody h = refl

pub book-IsAddresses : IsAddresses book
book-IsAddresses = record {
  servers_differ = refl;
  bare_server = bare_server;
  bare_bare = bare-bare;
  bare_unique = λ j k h h' e. hidden_bare j h ∙ sym (hidden_bare k h');
  some_text = shown_some;
  phone_text = shown_phone;
}

abbrev pub session : Session Jid
session = some (λ j. ok anna)

abbrev pub stranger : Session Jid
stranger = none
