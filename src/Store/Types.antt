-- ===== src/Store/Types.antt =====
-- The tables of internal/store (the columns of internal/store/migrate.go). A table is the list of
-- its rows in rowid order; SQLite itself is not modelled.
use whatsapp_connect_mcp.Prelude.{ℕ, String, Bool, Option, List, [], ◌==◌, if◌then◌else◌}
use whatsapp_connect_mcp.Prelude.Int.{ℤ, leb_ℤ}
use whatsapp_connect_mcp.Prelude.Dict.{Dict}

pub record Chat : Type 0 where
  pub jid : String
  pub name : String
  pub is_group : Bool
  pub archived : Bool
  pub last_message_at : ℤ

-- store.Message, the argument of UpsertMessage. `none` is a NULL media_ref.
pub record Message : Type 0 where
  pub chat_jid : String
  pub id : String
  pub sender_jid : String
  pub from_me : Bool
  pub ts : ℤ
  pub kind : String
  pub text : String
  pub quoted_id : String
  pub media_ref : Option String
  pub media_filename : String

-- A row of the table messages.
pub record Stored : Type 0 where
  pub rowid : ℕ
  pub message : Message
  pub open message use *
  pub read_at : ℤ

pub record Contact : Type 0 where
  pub jid : String
  pub phone : String
  pub push_name : String
  pub full_name : String
  pub business_name : String

pub record CallLog : Type 0 where
  pub id : String
  pub peer_jid : String
  pub ts : ℤ
  pub direction : String
  pub status : String
  pub is_video : Bool

pub record Db : Type 0 where
  pub chats : List Chat
  pub messages : List Stored
  pub contacts : List Contact
  pub calls : List CallLog
  pub lid_map : Dict String

abbrev pub empty_db : Db
empty_db = record { chats = []; messages = []; contacts = []; calls = []; lid_map = [] }

-- SQL's MAX of two integers.
abbrev pub max_ℤ : ℤ → ℤ → ℤ
max_ℤ a b = if leb_ℤ a b then b else a

-- CASE WHEN a <> '' THEN a ELSE b END
abbrev pub or_else : String → String → String
or_else a b = if a == "" then b else a
