-- ===== src/Store/Rows.antt =====
-- The rows that the queries of internal/store/query.go answer, and the bounds of their limits.
use whatsapp_connect_mcp.Prelude.{ℕ, String, Bool, if◌then◌else◌, ltb}
use whatsapp_connect_mcp.Prelude.Int.{ℤ, pos, negsuc}

pub record ChatRow : Type 0 where
  pub jid : String
  pub name : String
  pub is_group : Bool
  pub archived : Bool
  pub last_message_at : ℤ

pub record MessageRow : Type 0 where
  pub chat_jid : String
  pub id : String
  pub sender_jid : String
  pub sender_name : String
  pub from_me : Bool
  pub ts : ℤ
  pub kind : String
  pub text : String
  pub quoted_id : String
  pub has_media : Bool

pub record ContactRow : Type 0 where
  pub jid : String
  pub phone : String
  pub name : String

pub record CallRow : Type 0 where
  pub id : String
  pub peer_jid : String
  pub peer_name : String
  pub direction : String
  pub status : String
  pub ts : ℤ
  pub is_video : Bool

abbrev pub default_limit : ℕ
default_limit = 20

abbrev pub max_limit : ℕ
max_limit = 100

-- ClampLimit
unfoldable pub clamp_limit : ℤ → ℕ
clamp_limit (negsuc n) = default_limit
clamp_limit (pos ℕ.zero) = default_limit
clamp_limit (pos n) = if ltb max_limit n then max_limit else n

-- ClampContext
unfoldable pub clamp_context : ℤ → ℕ
clamp_context (negsuc n) = 0
clamp_context (pos n) = if ltb max_limit n then max_limit else n
