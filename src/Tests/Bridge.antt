-- ===== src/Tests/Bridge.antt =====
-- internal/bridge on a small address book.
use whatsapp_connect_mcp.Prelude.{
  ◌||◌, not, leb, ℕ, ◌+◌, ◌*◌, String, true, false, none, some, Option, List, [], ◌∷◌, ◌==◌, ◌≡◌,
  refl, ok, err, arith, All,
}
use whatsapp_connect_mcp.Prelude.Int.{pos}
use whatsapp_connect_mcp.Prelude.Text.{base}
use whatsapp_connect_mcp.Prelude.Dict.{lookup}
use whatsapp_connect_mcp.Gate.Types.{Delivery, delivery}
use whatsapp_connect_mcp.Store.Types.{Message, empty_db}
use whatsapp_connect_mcp.Store.Fold.Settled.{Resolved}
use whatsapp_connect_mcp.Bridge.Addresses.{
  fold_lookup, is_phone, is_hidden, chat_pairing, ask_session,
}
use whatsapp_connect_mcp.Bridge.Content
use whatsapp_connect_mcp.Bridge.Content.{Payload, empty, holds, peel, inner, unwrap_message, decode}
use whatsapp_connect_mcp.Bridge.Ingest.{decode_message, Host, MessageEvent, ingest_message}
use whatsapp_connect_mcp.Bridge.Ingest.Keys.{
  IsPhoneCache, IsPhoneSession, Keyed, ingest_message-Keyed,
}
use whatsapp_connect_mcp.Bridge.Ingest.Taught.{IsPaired, Known}
use whatsapp_connect_mcp.Bridge.Ingest.Pairs.{Agrees, stored, paired_sender}
use whatsapp_connect_mcp.Bridge.Ingest.History.{Conversation, ingest_history_sync}
use whatsapp_connect_mcp.Bridge.Ingest.History.Settles.{Keeps, TaughtAll, history_sync_settles}
use whatsapp_connect_mcp.Bridge.Connection.{
  Event, connects, disconnects, offline_sync_completed, View, opened, is_over, wait_for_catch_up,
  handle_event, set_state,
}
use whatsapp_connect_mcp.Bridge.Connection.CatchUp.{
  connected_last, connected_time, Waits, run, counted, status_exact, wait_ends,
}
use whatsapp_connect_mcp.Bridge.Outbound.{Client, Disk, World, outside, validate}
use whatsapp_connect_mcp.Bridge.Send.{deliver}
use whatsapp_connect_mcp.Bridge.Send.Confined.{IsConfined, deliver-IsConfined}
use whatsapp_connect_mcp.Bridge.Send.Rechecked.{deliver-IsRefused}
use whatsapp_connect_mcp.Bridge.Download.{
  Attachment, attachment, sanitize_media_filename, Downloads, Media, download_media,
}
use whatsapp_connect_mcp.Bridge.Download.Attachments.{decoded_media_downloads}
use whatsapp_connect_mcp.Tests.Book.{
  Jid, book, book-IsAddresses, session, stranger, anna_device, anna_lid, anna_lid_device, nobody,
}

abbrev hello : Payload
hello = record {
  conversation = "hi";
  extended_text = none;
  image = none;
  video = none;
  audio = none;
  document = none;
  sticker = none;
  reaction = none;
  contact = none;
  contacts_array = none;
  location = none;
  live_location = none;
  poll_v1 = none;
  poll_v2 = none;
  poll_v3 = none;
  poll_v5 = none;
  poll_v6 = none;
  poll_update = false;
  group_invite = none;
  ptv = none;
  event = none;
  protocol = false;
  album = false;
  secret_encrypted = false;
  fields = [];
}

abbrev plain : Payload → Content.Message
plain p = Content.message p empty empty empty empty empty

abbrev vanishing : Content.Message
vanishing = Content.message hello (holds (plain hello)) empty empty empty empty

abbrev host : Host
host = record { marshal = λ m. some "ref"; trim_space = λ s. s; to_lower = λ s. s }

abbrev from_anna : MessageEvent Jid
from_anna = record {
  source = record {
    chat = anna_lid;
    sender = anna_lid_device;
    sender_alt = anna_device;
    recipient_alt = nobody;
    is_from_me = false;
    is_group = false;
  };
  id = "m1";
  push_name = "Anna";
  at = pos 10;
  message = vanishing;
}

stranger_phones : IsPhoneSession book book-IsAddresses stranger
unfolding ask_session
stranger_phones j v h = ground (arith, h)

no_cache : IsPhoneCache book book-IsAddresses stranger []
unfolding lookup
no_cache u v h = ground (arith, h)

ingest_message-Keyed_example :
    let (ws, d) = ingest_message book host stranger from_anna [] in
    All (Keyed book book-IsAddresses stranger stranger_phones d) ws
    × IsPhoneCache book book-IsAddresses stranger d
    × ((lid : Jid)
        → IsPaired book book-IsAddresses stranger from_anna.source lid
        → Known book book-IsAddresses stranger d lid)
    × ((j : Jid)
        → Known book book-IsAddresses stranger [] j
        → Known book book-IsAddresses stranger d j)
ingest_message-Keyed_example =
    ingest_message-Keyed book book-IsAddresses stranger stranger_phones host from_anna [] no_cache

paired_sender_example :
    (m : Message) × (stored (ingest_message book host stranger from_anna []).0 ≡ m ∷ [])
    × (is_phone book anna_lid_device ≡ true → m.sender_jid ≡ "77:2@lid")
    × (is_hidden book anna_lid_device ≡ true
        → is_phone book anna_device ≡ true
        → Agrees book book-IsAddresses stranger from_anna.source
            (chat_pairing book from_anna.source)
        → m.sender_jid ≡ "4366@s.whatsapp.net")
paired_sender_example = paired_sender book book-IsAddresses stranger host from_anna []

abbrev conversation : Conversation (MessageEvent Jid)
conversation = record {
  id = "77@lid";
  name = "Anna";
  at = pos 9;
  messages = none ∷ some from_anna ∷ [];
}

abbrev as_event : Jid → MessageEvent Jid → Option (MessageEvent Jid)
as_event chat e = some e

history_sync_settles_example :
    let (db', d) =
      ingest_history_sync book host stranger as_event (conversation ∷ []) [] empty_db in
    Resolved (fold_lookup book stranger d) db'
    × Keeps book book-IsAddresses host stranger as_event [] d
    × All (TaughtAll book book-IsAddresses host stranger as_event d) (conversation ∷ [])
history_sync_settles_example =
    history_sync_settles book book-IsAddresses host stranger as_event (conversation ∷ []) []
      empty_db tt

abbrev day : List (ℕ × Event)
day =
    (1000, connects) ∷ (1500, offline_sync_completed) ∷ (9000, disconnects) ∷ (12000, connects) ∷ []

status_exact_example :
    let l = run day (opened 0 true) in
    (is_over (record { now = 20_000; link = l; cancelled = false })
      ≡ (not (connected_last day false) || (leb (connected_time day 0 + 15_000) 20_000 || false)))
    × (counted l ≡ 2)
status_exact_example = status_exact 0 true day 20_000 false

abbrev views : ℕ → View
views n = record { now = 12000 + 50 * n; link = run day (opened 0 true); cancelled = false }

wait_ends_example : (k : ℕ) × (wait_for_catch_up 301 views 0 ≡ some k) × Waits views 12000 0 k
unfolding run opened handle_event set_state
wait_ends_example = wait_ends views 12000 (λ n. omega arith) (λ n. refl) (omega arith)

abbrev client : Client Jid
client = record {
  needs_pairing = false;
  own = some anna_device;
  send_message = λ to m. ok ("m2", pos 20);
  upload = λ type content. ok "up";
  update_blocklist = λ j b. none;
  mark_read = λ ids chat sender. none;
  wire = λ m. plain hello;
}

abbrev disk : Disk
disk = record {
  read_file = λ path. ok "OggS";
  allows = λ path. path == "/out/a.ogg";
  type_by_extension = λ e. "";
  detect_content_type = λ c. "image/png";
}

abbrev world : World Jid
world = record { reads = []; requests = []; writes = []; cache = [] }

abbrev secret : Delivery
secret = record (delivery "media" "4366@s.whatsapp.net") { path = "/etc/key" }

deliver-IsConfined_example :
    IsConfined book host session client disk
      (pos 20)
      false
      secret
      world
      (deliver book host session client disk (pos 20) false secret world)
deliver-IsConfined_example =
    deliver-IsConfined book host session client disk (pos 20) false secret world

deliver-IsRefused_example :
    let p = deliver book host session client disk (pos 20) false secret world in
    (p.1 ≡ world) × (e : String) × (p.0 ≡ err e)
unfolding validate
deliver-IsRefused_example =
    deliver-IsRefused book host session client disk (pos 20) false secret world {e = outside} refl

abbrev sticker : Payload
sticker = record hello { conversation = ""; sticker = some "" }

-- A sticker inside an envelope.
abbrev sent_sticker : MessageEvent Jid
sent_sticker = record from_anna {
  message = Content.message hello (holds (plain sticker)) empty empty empty empty;
}

abbrev downloads : Downloads
downloads = record {
  unmarshal = λ ref. some (plain sticker);
  download = λ msg k. ok "webp";
  mkdir = λ dir. none;
  write_file = λ dir content. none;
  needs_pairing = false;
}

abbrev nothing_yet : Media
nothing_yet = record { files = []; asked = [] }

decoded_media_downloads_example :
    (k : Attachment) × (attachment sticker ≡ some k)
    × ((download_media downloads "ref" "media" "m1.webp" nothing_yet).1.asked ≡ k ∷ [])
unfolding decode_message sanitize_media_filename unwrap_message decode peel inner base
decoded_media_downloads_example =
    decoded_media_downloads book host downloads sent_sticker "media" "m1.webp" nothing_yet
      (λ _. refl) refl refl
