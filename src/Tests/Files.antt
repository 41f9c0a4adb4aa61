-- ===== src/Tests/Files.antt =====
-- internal/medianame and internal/accounts on small inputs.
use whatsapp_connect_mcp.Prelude.{
  String, Bool, true, false, none, some, List, [], ◌∷◌, ◌≡◌, ◌↔◌, refl, ok, contains,
}
use whatsapp_connect_mcp.Prelude.Dict.{lookup, remove, insert}
use whatsapp_connect_mcp.Prelude.Text.{base, has_char}
use whatsapp_connect_mcp.MediaNames.{saved_filename}
use whatsapp_connect_mcp.MediaNames.Distinct.{saved_filename-distinct}
use whatsapp_connect_mcp.Accounts.{Layout, legacy_names, adopt_legacy, for_account}
use whatsapp_connect_mcp.Accounts.Adoption.{Keeps, adopt_legacy-Keeps}
use whatsapp_connect_mcp.Accounts.Separate.{for_account-separate}

abbrev first_id : String
first_id = "3EB0"

abbrev second_id : String
second_id = "3EB0.x"

saved : saved_filename first_id "document" "a/report.tar.gz" ≡ ok "3EB0.gz"
unfolding saved_filename
saved = refl

saved_filename-distinct_example :
    (saved_filename second_id "video" "" ≡ ok "3EB0.gz" → first_id ≡ second_id)
    × (base "3EB0.gz" ≡ "3EB0.gz")
    × (has_char b'/' "3EB0.gz" ≡ false)
    × (has_char b'\\' "3EB0.gz" ≡ false)
saved_filename-distinct_example =
    saved_filename-distinct first_id second_id "document" "video" "a/report.tar.gz" "" saved

abbrev old : Layout String
old = record {
  root = ("media", "pictures") ∷ ("messages.db", "rows") ∷ [];
  account = ("backups", "copies") ∷ [];
}

abbrev renames : String → Bool
renames n = true

abbrev order : List String
order = "messages.db" ∷ "media" ∷ []

abbrev half : Layout String
half = record { root = []; account = ("media", "pictures") ∷ ("messages.db", "rows") ∷ old.account }

adopted : adopt_legacy renames order old ≡ ((order, none), half)
unfolding adopt_legacy lookup remove insert
adopted = refl

adopt_legacy-Keeps_example :
    Keeps old (adopt_legacy renames order old).1
    × ((adopt_legacy renames order old).0.1 ≡ none
        → (n t c : String) → contains order n ≡ true
        → lookup n legacy_names ≡ some t
        → lookup n old.root ≡ some c
        → (lookup n (adopt_legacy renames order old).1.root ≡ none)
          × (lookup n (adopt_legacy renames order old).1.account ≡ some c))
adopt_legacy-Keeps_example = adopt_legacy-Keeps renames order old

abbrev first_user : String
first_user = "49"

abbrev second_user : String
second_user = "50"

for_account-separate_example :
    (for_account true "/d" "49:1@s.whatsapp.net" ≡ ok "/d/accounts/49")
    × ((for_account true "/d" "49:1@s.whatsapp.net" ≡ for_account true "/d" "50@s.whatsapp.net")
        ↔ (first_user ≡ second_user))
    × ¬ (for_account true "/d" "49:1@s.whatsapp.net" ≡ for_account true "/d" "")
for_account-separate_example =
    for_account-separate "/d" first_user ":1@s.whatsapp.net" second_user "@s.whatsapp.net" refl refl
      refl refl refl refl
