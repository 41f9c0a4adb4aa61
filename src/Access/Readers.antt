-- ===== src/Access/Readers.antt =====
-- internal/config/config.go, ScopeReader and TrustReader: checks against the settings as they
-- stand on disk, with the last good read where they cannot be read.
use whatsapp_connect_mcp.Prelude.{
  String, Bool, true, false, List, [], ◌∷◌, ◌≡◌, refl, contains, Result, ok, err, Option, none,
  some,
}
use whatsapp_connect_mcp.Access.Config.{
  Config, zero_config, Files, ConfigError, load_for, is_readable, is_trusted, scope_active,
}

-- Which files a reader looks at: DefaultMediaDir(dir), and whether there is an account directory.
pub record Where : Type 0 where
  pub outbox : String
  pub paired : Bool

abbrev pub read : Where → Files → Result ConfigError Config
read w f = load_for w.outbox w.paired f

abbrev config_or : Config → Result ConfigError Config → Config
config_or last (err e) = last
config_or last (ok c) = c

-- NewScopeReader; the state is lastGood.
unfoldable pub new_scope_reader : Where → Files → Config
new_scope_reader w f = config_or zero_config (read w f)

-- ScopeReader.current, with the new lastGood, which is also the answer.
unfoldable pub current : Where → Files → Config → Config
current w f last = config_or last (read w f)

-- Readable, Active and List, each with the new lastGood.
unfoldable pub readable : Where → Files → String → Config → Bool × Config
unfolding current
readable w f jid last = let c = current w f last in (is_readable c jid, c)

unfoldable pub active : Where → Files → Config → Bool × Config
unfolding current
active w f last = let c = current w f last in (scope_active c, c)

unfoldable pub list : Where → Files → Config → List String × Config
unfolding current
list w f last = let c = current w f last in (c.readable_chats, c)

abbrev trusted_or : List String → Result ConfigError Config → List String
trusted_or last (err e) = last
trusted_or last (ok c) = c.trusted_jids

-- NewTrustReader and Trusted; the state is lastGood.
unfoldable pub new_trust_reader : Where → Files → List String
new_trust_reader w f = trusted_or [] (read w f)

unfoldable pub trusted : Where → Files → String → List String → Bool × List String
trusted w f jid last = let jids = trusted_or last (read w f) in (contains jids jid, jids)

-- The readers after the files went through some states, newest first.
abbrev pub scope_history : Where → List Files → Files → Config
scope_history w [] start = new_scope_reader w start
scope_history w (f ∷ fs) start = current w f (scope_history w fs start)

abbrev pub trust_history : Where → List Files → Files → List String
trust_history w [] start = new_trust_reader w start
trust_history w (f ∷ fs) start = (trusted w f "" (trust_history w fs start)).1

abbrev pub from_start : List Files → Files → List Files
from_start [] start = start ∷ []
from_start (f ∷ fs) start = f ∷ from_start fs start

abbrev good_or : Option Config → Result ConfigError Config → Option Config
good_or last (ok c) = some c
good_or last (err e) = last

-- The settings of the newest state that could be read, none if none could.
abbrev pub last_good : Where → List Files → Option Config
last_good w [] = none
last_good w (f ∷ fs) = good_or (last_good w fs) (read w f)

abbrev pub readable_by : Option Config → String → Bool
readable_by none jid = true
readable_by (some c) jid = is_readable c jid

abbrev pub trusted_by : Option Config → String → Bool
trusted_by none jid = false
trusted_by (some c) jid = is_trusted c jid

abbrev configured : Option Config → Config
configured none = zero_config
configured (some c) = c

config_or_lem :
    (o : Option Config) (r : Result ConfigError Config)
    → config_or (configured o) r ≡ configured (good_or o r)
config_or_lem o (ok c) = refl
config_or_lem o (err e) = refl

trusted_or_lem :
    (o : Option Config) (r : Result ConfigError Config)
    → trusted_or (configured o).trusted_jids r ≡ (configured (good_or o r)).trusted_jids
trusted_or_lem o (ok c) = refl
trusted_or_lem o (err e) = refl

scope_history_lem :
    (w : Where) (fs : List Files) (start : Files)
    → scope_history w fs start ≡ configured (last_good w (from_start fs start))
unfolding current new_scope_reader
scope_history_lem w [] start = config_or_lem none (read w start)
scope_history_lem w (f ∷ fs) start =
    rw (scope_history_lem w fs start) (config_or_lem (last_good w (from_start fs start)) (read w f))

trust_history_lem :
    (w : Where) (fs : List Files) (start : Files)
    → trust_history w fs start ≡ (configured (last_good w (from_start fs start))).trusted_jids
unfolding trusted new_trust_reader
trust_history_lem w [] start = trusted_or_lem none (read w start)
trust_history_lem w (f ∷ fs) start =
    rw (trust_history_lem w fs start)
      (trusted_or_lem (last_good w (from_start fs start)) (read w f))

configured-readable :
    (o : Option Config) (jid : String) → is_readable (configured o) jid ≡ readable_by o jid
unfolding is_readable scope_active
configured-readable none jid = refl
configured-readable (some c) jid = refl

configured-trusted :
    (o : Option Config) (jid : String) → contains (configured o).trusted_jids jid ≡ trusted_by o jid
unfolding is_trusted
configured-trusted none jid = refl
configured-trusted (some c) jid = refl

-- After any history of the two files, each reader answers as the newest settings that could be
-- read say. Where none could ever be read, nobody is trusted, but every chat is readable.
pub readers_follow_last_good :
    (w : Where) (fs : List Files) (start now : Files) (jid : String)
    → ((readable w now jid (scope_history w fs start)).0
        ≡ readable_by (last_good w (now ∷ from_start fs start)) jid)
      × ((trusted w now jid (trust_history w fs start)).0
          ≡ trusted_by (last_good w (now ∷ from_start fs start)) jid)
unfolding readable trusted current
readers_follow_last_good w fs start now jid =
    let past = last_good w (from_start fs start) in
    let good = good_or past (read w now) in
    (
      rw (scope_history_lem w fs start, config_or_lem past (read w now))
          (configured-readable good jid),
      rw (trust_history_lem w fs start, trusted_or_lem past (read w now))
          (configured-trusted good jid),
    )
