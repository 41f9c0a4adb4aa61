-- ===== src/Tests/Reads.antt =====
-- The settings of internal/config, the scope of internal/mcpserv/scope.go and the session grants
-- of internal/sessiontrust on small inputs.
use whatsapp_connect_mcp.Prelude.{
  String, Bool, true, false, some, [], ◌∷◌, ◌==◌, ◌≡◌, refl, ok, err,
}
use whatsapp_connect_mcp.Prelude.Int.{pos}
use whatsapp_connect_mcp.Prelude.Sorting.{sort_by, insert_by}
use whatsapp_connect_mcp.Store.Types.{Message, empty_db}
use whatsapp_connect_mcp.Store.Ingest.{upsert_message}
use whatsapp_connect_mcp.Store.Query.{Engine, message_row}
use whatsapp_connect_mcp.Access.Config.{
  Config, zero_config, Files, missing, malformed, holds, load_for, split_legacy, is_readable,
  scope_active,
}
use whatsapp_connect_mcp.Access.Saving.{split_legacy_keeps_settings}
use whatsapp_connect_mcp.Access.Readers.{
  Where, readable, trusted, scope_history, trust_history, last_good, readable_by, trusted_by,
  readers_follow_last_good,
}
use whatsapp_connect_mcp.Access.Edits.{scope_allow, scope_deny, deny_last_opens}
use whatsapp_connect_mcp.Access.SessionTrust.{Disk}
use whatsapp_connect_mcp.Access.ScopedStore.{scoped_store, scope_of, out_of_scope}
use whatsapp_connect_mcp.Access.ScopedStore.Confined.{Confined}
use whatsapp_connect_mcp.Access.ScopedStore.Backed.{
  store_api, database_reads-Confined, last_interaction_leaves_scope,
}
use whatsapp_connect_mcp.Tests.Database.{two, message, anna}

abbrev pub only_anna : Config
only_anna = record zero_config { chat_scope = "allowlist"; readable_chats = anna ∷ [] }

abbrev old_style : Config
old_style = record zero_config { readable_chats = anna ∷ [] }

abbrev pub engine : Engine
engine = record { like = λ t q. t == q; matches = λ t q. t == q; trim_space = λ t. t }

abbrev pub has : String → String → Bool
has name query = name == query

abbrev files : Files
files = record { machine = holds only_anna; account = missing }

abbrev here : Where
here = record { outbox = "outbox"; paired = true }

allow_sorts : (scope_allow "1@s" only_anna).readable_chats ≡ "1@s" ∷ anna ∷ []
unfolding scope_allow is_readable scope_active sort_by insert_by
allow_sorts = refl

split_legacy_keeps_settings_example :
    load_for "outbox" true (split_legacy true false true files).1 ≡ load_for "outbox" true files
split_legacy_keeps_settings_example = split_legacy_keeps_settings "outbox" true false true files

abbrev broken_files : Files
broken_files = record files { machine = malformed }

readers_follow_last_good_example :
    ((readable here broken_files "x@s" (scope_history here (broken_files ∷ []) files)).0
      ≡ readable_by (last_good here (broken_files ∷ broken_files ∷ files ∷ [])) "x@s")
    × ((trusted here broken_files "x@s" (trust_history here (broken_files ∷ []) files)).0
        ≡ trusted_by (last_good here (broken_files ∷ broken_files ∷ files ∷ [])) "x@s")
readers_follow_last_good_example =
    readers_follow_last_good here (broken_files ∷ []) files broken_files "x@s"

deny_last_opens_example :
    (scope_active old_style ≡ true) × (is_readable (scope_deny anna old_style) anna ≡ true)
deny_last_opens_example = deny_last_opens old_style anna anna refl refl

abbrev disk : Disk
disk = record { trim_space = λ t. t; writes = true; removes = true }

database_reads-Confined_example :
    Confined (is_readable only_anna) (scoped_store has (scope_of only_anna) (store_api engine two))
unfolding scope_active
database_reads-Confined_example = database_reads-Confined has engine only_anna two refl

abbrev in_group : Message
in_group = record (message "family@g.us" "z" "secret") { sender_jid = anna }

last_interaction_leaves_scope_example :
    ((scoped_store has
          (scope_of only_anna)
          (store_api engine (upsert_message in_group empty_db))).last_interaction
        anna
      ≡ ok (
          some (
            message_row
              (upsert_message in_group empty_db)
              (record { rowid = 1; message = in_group; read_at = pos 0 }))))
    × ((scoped_store has
            (scope_of only_anna)
            (store_api engine (upsert_message in_group empty_db))).oldest_message
          "family@g.us"
        ≡ err out_of_scope)
unfolding is_readable scope_active
last_interaction_leaves_scope_example =
    last_interaction_leaves_scope has engine only_anna in_group refl refl
