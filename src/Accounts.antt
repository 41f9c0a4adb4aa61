-- ===== src/Accounts.antt =====
-- internal/accounts/accounts.go: the directory of an account, and the move of the files of an install
-- that had one account. Whether the system makes a directory or renames a file is an argument.
pub mod Adoption
pub mod Separate
use Prim.Native.String.{String, ◌++◌ as concat}
use whatsapp_connect_mcp.Prelude.{
  Bool, true, false, Option, none, some, List, [], ◌∷◌, ◌++◌, ◌==◌, ◌≡◌, refl, if◌then◌else◌,
  Result, ok, err,
}
use whatsapp_connect_mcp.Prelude.Dict.{Dict, lookup, remove, insert}
use whatsapp_connect_mcp.Prelude.Text.{all_digits, before}

abbrev pub pending_id : String
pending_id = "_pending"

-- ID
unfoldable pub id : String → String
id own_jid = let user = before b':' (before b'@' own_jid) in if all_digits user then user else ""

-- The directory's name in For.
unfoldable pub dir_name : String → String
unfolding id
dir_name own_jid = if id own_jid == "" then pending_id else id own_jid

-- For, under the clean path of the data directory; MkdirAll answers by the flag.
unfoldable pub for_account : Bool → String → String → Result String String
unfolding dir_name
for_account made data_dir own_jid =
    let dir = concat data_dir (concat "/accounts/" (dir_name own_jid)) in
    if made then ok dir else err "create account directory"

abbrev pub legacy_names : Dict String
legacy_names =
    ("messages.db", "messages.db")
    ∷ ("messages.db-wal", "messages.db-wal")
    ∷ ("messages.db-shm", "messages.db-shm")
    ∷ ("media", "media")
    ∷ ("backups", "backups")
    ∷ ("schedules.json", "schedules.json")
    ∷ ("session-trust", "session-trust")
    ∷ []

-- The entries of the data directory and those of the account's directory.
pub record Layout {ℓ} (C : Type ℓ) : Type ℓ where
  pub root : Dict C
  pub account : Dict C

pub data AdoptError : Type 0 where
  occupied : String → AdoptError
  not_renamed : String → AdoptError

abbrev pub Adopted {ℓ} : Type ℓ → Type ℓ
Adopted C = (List String × Option AdoptError) × Layout C

module _ {ℓ} {C : Type ℓ} where
  abbrev pub moved_to : String → String → C → Layout C → Layout C
  moved_to legacy target c l = record {
    root = remove legacy l.root;
    account = insert target c l.account;
  }

  -- The loop of AdoptLegacy. The first argument is the order in which the keys of legacyNames come.
  unfoldable pub adopt : (String → Bool) → List String → List String → Layout C → Adopted C
  adopt renames [] moved l = ((moved, none), l)
  adopt renames (legacy ∷ names) moved l = elim (lookup legacy legacy_names) [
    | none ↦ adopt renames names moved l
    | some target ↦ elim (lookup legacy l.root) [
      | none ↦ adopt renames names moved l
      | some c ↦ elim (lookup target l.account) [
        | some _ ↦ ((moved, some (occupied legacy)), l)
        | none ↦ elim (renames legacy) [
          | false ↦ ((moved, some (not_renamed legacy)), l)
          | true ↦ adopt renames names (moved ++ (legacy ∷ [])) (moved_to legacy target c l)
        ]
      ]
    ]
  ]

  unfoldable pub adopt_legacy : (String → Bool) → List String → Layout C → Adopted C
  unfolding adopt
  adopt_legacy renames order l = adopt renames order [] l

id_samples :
    (id "4917:12@s.whatsapp.net" ≡ "4917")
    × (id "4917@s.whatsapp.net" ≡ "4917")
    × (id "../x@s.whatsapp.net" ≡ "")
    × (dir_name "" ≡ "_pending")
unfolding id dir_name
id_samples = (refl, refl, refl, refl)
