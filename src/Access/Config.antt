-- ===== src/Access/Config.antt =====
-- internal/config/config.go: the settings, their two files, and what they allow. A file is what
-- os.Stat, os.ReadFile and the JSON decoder make of it: an unreadable one is there all the same.
use whatsapp_connect_mcp.Prelude.{
  String, Bool, true, false, ◌&&◌, ◌||◌, not, Option, none, some, List, [], ◌∷◌, ◌==◌, contains,
  length, ltb, eqb, if◌then◌else◌, Result, ok, err,
}
use whatsapp_connect_mcp.Prelude.Int.{ℤ, pos, leb_ℤ}

pub record Config : Type 0 where
  pub trusted_jids : List String
  pub rate_burst : ℤ
  pub rate_per_seconds : ℤ
  pub media_roots : List String
  pub chat_scope : String
  pub readable_chats : List String

abbrev pub zero_config : Config
zero_config = record {
  trusted_jids = [];
  rate_burst = pos 0;
  rate_per_seconds = pos 0;
  media_roots = [];
  chat_scope = "";
  readable_chats = [];
}

pub data File : Type 0 where
  missing unreadable malformed : File
  holds : Config → File

pub data ConfigError : Type 0 where
  read_failed not_json write_failed : ConfigError

-- config.json of the data directory and account.json of the account's.
pub record Files : Type 0 where
  pub machine : File
  pub account : File

-- The zero Config for a missing file.
unfoldable pub read_file : File → Result ConfigError Config
read_file missing = ok zero_config
read_file unreadable = err read_failed
read_file malformed = err not_json
read_file (holds c) = ok c

abbrev is_missing : File → Bool
is_missing missing = true
is_missing _ = false

abbrev pub default_burst : ℤ
default_burst = pos 3

abbrev pub default_per_seconds : ℤ
default_per_seconds = pos 12

abbrev or_default : ℤ → ℤ → ℤ
or_default d n = if leb_ℤ n (pos 0) then d else n

abbrev roots_or_default : String → List String → List String
roots_or_default outbox [] = outbox ∷ []
roots_or_default outbox (r ∷ rs) = r ∷ rs

unfoldable pub fill_defaults : String → Config → Config
fill_defaults outbox c = record c {
  rate_burst = or_default default_burst c.rate_burst;
  rate_per_seconds = or_default default_per_seconds c.rate_per_seconds;
  media_roots = roots_or_default outbox c.media_roots;
}

-- The account's keys come from its own file once there is one.
unfoldable pub overlay : Config → Config → Config
overlay c acct = record c {
  trusted_jids = acct.trusted_jids;
  chat_scope = acct.chat_scope;
  readable_chats = acct.readable_chats;
}

-- LoadFor. `paired` says that an account directory was given, `outbox` is DefaultMediaDir(dir).
unfoldable pub load_for : String → Bool → Files → Result ConfigError Config
unfolding read_file fill_defaults overlay
load_for outbox paired f = elim (read_file f.machine) [
  | err e ↦ err e
  | ok c ↦
      if paired && not (is_missing f.account)
      then elim (read_file f.account) [
        | err e ↦ err e
        | ok acct ↦ ok (fill_defaults outbox (overlay c acct))
      ]
      else ok (fill_defaults outbox c)
]

-- The halves that SaveFor writes.
abbrev pub account_half : Config → Config
account_half c = record zero_config {
  trusted_jids = c.trusted_jids;
  chat_scope = c.chat_scope;
  readable_chats = c.readable_chats;
}

abbrev pub machine_half : Config → Config
machine_half c = record zero_config {
  rate_burst = c.rate_burst;
  rate_per_seconds = c.rate_per_seconds;
  media_roots = c.media_roots;
}

-- SaveFor, with whether each of the two writes would succeed. The account's file is written first,
-- and the other is not tried when that fails.
unfoldable pub save_for : Bool → Bool → Bool → Config → Files → Option ConfigError × Files
save_for account_ok machine_ok false c f =
    if machine_ok then (none, record f { machine = holds c }) else (some write_failed, f)
save_for account_ok machine_ok true c f =
    let f' = record f { account = holds (account_half c) } in
    if account_ok
    then (if machine_ok
        then (none, record f' { machine = holds (machine_half c) })
        else (some write_failed, f'))
    else (some write_failed, f)

abbrev pub nothing_owned : Config → Bool
nothing_owned c =
    eqb (length c.trusted_jids) 0 && (c.chat_scope == "" && eqb (length c.readable_chats) 0)

abbrev splitted : Option ConfigError × Files → Result ConfigError Bool × Files
splitted (none, f) = (ok true, f)
splitted (some e, f) = (err e, f)

-- SplitLegacy
unfoldable pub split_legacy : Bool → Bool → Bool → Files → Result ConfigError Bool × Files
unfolding read_file save_for
split_legacy account_ok machine_ok paired f =
    if not paired || not (is_missing f.account) then (ok false, f) else elim (read_file f.machine) [
      | err e ↦ (err e, f)
      | ok legacy ↦
          if nothing_owned legacy
          then (ok false, f)
          else splitted (save_for account_ok machine_ok true legacy f)
    ]

unfoldable pub is_trusted : Config → String → Bool
is_trusted c jid = contains c.trusted_jids jid

-- normalizeScope(c) == ScopeAllowlist
unfoldable pub scope_active : Config → Bool
scope_active c =
    if c.chat_scope == "allowlist"
    then true
    else if c.chat_scope == "all"
    then false
    else ltb 0 (length c.readable_chats)

unfoldable pub is_readable : Config → String → Bool
unfolding scope_active
is_readable c jid = if not (scope_active c) then true else contains c.readable_chats jid
