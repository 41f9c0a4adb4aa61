-- ===== src/Gate/Render.antt =====
-- buildPreview and newDraftToken of internal/gate/gate.go: the texts that a draft shows and is
-- named by. Go's quoting, its time format, SHA-256 and hex come as a parameter.
use Prim.Native.String.{◌++◌}
use whatsapp_connect_mcp.Prelude.{
  String, Bool, Option, none, some, List, [], ◌∷◌, ◌==◌, not, length, ltb, if◌then◌else◌, Result,
  ok, err,
}
use whatsapp_connect_mcp.Prelude.Int.{ℤ, pos, ltb_ℤ}
use whatsapp_connect_mcp.Prelude.Text.{join, itoa}
use whatsapp_connect_mcp.Gate.Types.{Delivery, items, Error, token_failed}

-- fmt's %q, time.RFC3339 in UTC, sha256.Sum256 and hex.EncodeToString.
pub record Codec : Type 0 where
  pub quote : String → String
  pub rfc3339 : ℤ → String
  pub sha256 : String → String
  pub hex : String → String

-- `if test { parts = append(parts, part) }`
abbrev part_if : Bool → String → List String → List String
part_if test part rest = if test then part ∷ rest else rest

module _ (codec : Codec) where
  open codec use {quote, rfc3339, sha256, hex}

  unfoldable pub build_preview : String → Delivery → String
  unfolding itoa
  build_preview name d = join " " (
      (if name == "" then d.to else name ++ (" (" ++ (d.to ++ ")")))
      ∷ d.kind
      ∷ part_if (not (d.text == "")) ("text=" ++ quote d.text) (
          part_if (not (d.path == "")) ("path=" ++ quote d.path) (
            part_if (not (d.quoted_id == "")) ("quoted=" ++ d.quoted_id) (
              part_if (ltb 0 (length (items d.message_ids)))
                ("ids=" ++ join "," (items d.message_ids))
                (part_if (ltb 0 (length (items d.options)))
                  ("options=" ++ quote (join " | " (items d.options)))
                  (part_if (ltb_ℤ (pos 1) d.selectable_count)
                    ("selectable=" ++ itoa d.selectable_count)
                    (part_if (ltb_ℤ (pos 0) d.fire_at) ("send_at=" ++ rfc3339 d.fire_at) [])))))))

  -- The random bytes are an argument: `none` where the system had none to give.
  unfoldable pub new_draft_token : Delivery → Option String → Result Error String
  unfolding itoa
  new_draft_token d none = err token_failed
  new_draft_token d (some nonce) =
      let content = sha256 (
        join "|" (
          d.kind
          ∷ d.text
          ∷ d.path
          ∷ d.quoted_id
          ∷ join "," (items d.message_ids)
          ∷ d.author
          ∷ join "\u{1f}" (items d.options)
          ∷ itoa d.selectable_count
          ∷ itoa d.fire_at
          ∷ [])) in
      ok (hex (sha256 (d.to ++ (content ++ nonce))))
