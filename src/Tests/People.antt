-- ===== src/Tests/People.antt =====
-- internal/target/target.go and internal/dashboard/pair.go on small inputs.
use whatsapp_connect_mcp.Prelude.{
  String, ◌≤◌, true, false, [], ◌∷◌, ◌==◌, ◌≡◌, ◌⊎◌, refl, Result, ok,
}
use whatsapp_connect_mcp.Prelude.Int.{pos}
use whatsapp_connect_mcp.Prelude.Text.{size}
use Prim.Native.String.{◌++◌}
use whatsapp_connect_mcp.Store.Rows.{ContactRow, ChatRow}
use whatsapp_connect_mcp.Target.{
  Candidate, Lookup, Strings, ambiguous, is_jid, as_phone, search, resolve, candidates, last_at,
  phone_chars, unseen,
}
use whatsapp_connect_mcp.Target.Exact.{digits_of, resolve_never_guesses}
use whatsapp_connect_mcp.Dashboard.Pairing.{
  idle, World, request, Reachable, initial, after, SingleFlight, handle_pair_start,
  reachable-SingleFlight,
}

abbrev plain : Strings
plain = record { trim_space = λ s. s; to_lower = λ s. s; has_part = λ s part. s == part }

abbrev anna : ContactRow
anna = record { jid = "1@s.whatsapp.net"; phone = "1"; name = "Anna" }

abbrev anna_chat : ChatRow
anna_chat = record {
  jid = "1@s.whatsapp.net";
  name = "Anna";
  is_group = false;
  archived = false;
  last_message_at = pos 1;
}

abbrev family : ChatRow
family = record anna_chat { jid = "2@g.us"; name = "Anna"; is_group = true }

abbrev one : Lookup
one = record { search_contacts = λ q n. ok (anna ∷ []); chats = λ q a n. ok (anna_chat ∷ []) }

abbrev two : Lookup
two = record {
  search_contacts = λ q n. ok (anna ∷ []);
  chats = λ q a n. ok (anna_chat ∷ family ∷ []);
}

resolve_phone : resolve plain one "+43 660 123-4567" ≡ ok "436601234567@s.whatsapp.net"
unfolding resolve is_jid last_at as_phone phone_chars
resolve_phone = refl

resolve_jid : resolve plain one "x@lid" ≡ ok "x@lid"
unfolding resolve is_jid last_at
resolve_jid = refl

resolve_ambiguous :
    Result.err (
      ambiguous "Anna" (
        record { jid = "1@s.whatsapp.net"; name = "Anna"; phone = "1"; is_group = false }
        ∷ record { jid = "2@g.us"; name = "Anna"; phone = ""; is_group = true }
        ∷ []))
    ≡ resolve plain two "Anna"
unfolding resolve is_jid last_at as_phone phone_chars search candidates unseen
resolve_ambiguous = refl

abbrev asked : String
asked = "Anna"

abbrev answered : String
answered = "1@s.whatsapp.net"

resolve_never_guesses_example :
    ((answered ≡ asked) × (is_jid asked ≡ true))
    ⊎ (((answered ≡ digits_of asked ++ "@s.whatsapp.net")
          × (7 ≤ size (digits_of asked))
          × (size (digits_of asked) ≤ 15))
        ⊎ ((c : Candidate) × (search plain one asked ≡ ok (c ∷ [])) × (c.jid ≡ answered)))
unfolding resolve is_jid last_at as_phone phone_chars search candidates unseen
resolve_never_guesses_example = resolve_never_guesses plain one asked {jid = answered} refl

abbrev pairing : World
pairing = record { pair = record { active = true; code = ""; last_err = "" }; running = 1 }

pairing-Reachable : Reachable pairing
unfolding handle_pair_start
pairing-Reachable = after (initial) (request (record { pair = idle; running = 0 }) true true)

reachable-SingleFlight_example : SingleFlight pairing
reachable-SingleFlight_example = reachable-SingleFlight pairing-Reachable
