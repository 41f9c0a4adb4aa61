-- ===== src/MediaNames.antt =====
-- internal/medianame/medianame.go: where downloaded media is written. TrimSpace is a parameter.
pub mod Distinct
use Prim.Native.Char.{code}
use Prim.Native.String.{String, [], ◌∷◌, ◌++◌}
use whatsapp_connect_mcp.Prelude.{
  Bool, true, false, not, ◌||◌, ◌==◌, ◌≡◌, refl, if◌then◌else◌, eqb, Result, ok, err, arith,
}
use whatsapp_connect_mcp.Prelude.Text.{base, has_char}
use whatsapp_connect_mcp.Tools.Banner.{occurs}
use whatsapp_connect_mcp.Tools.Send.{ext}

-- chatDirReplacer.Replace
unfoldable pub replace_chat : String → String
replace_chat [] = []
replace_chat (c ∷ s) =
    let rest = replace_chat s in
    if eqb (code c) b':' || (eqb (code c) b'/' || eqb (code c) b'\\') then "_" ++ rest else c ∷ rest

-- filepath.Join(dir, name) for a clean dir and a name that has no slash and is not "..".
abbrev pub child : String → String → String
child dir name = if name == "" || name == "." then dir else dir ++ ("/" ++ name)

-- ChatDir, under the clean path of the data directory
unfoldable pub chat_dir : (String → String) → String → String → Result String String
unfolding replace_chat occurs
chat_dir trim_space data_dir chat_jid =
    if trim_space chat_jid == ""
    then err "chat_jid is required"
    else if occurs ".." chat_jid
    then err "invalid chat_jid"
    else ok (child (child data_dir "media") (replace_chat chat_jid))

-- The extension of a kind, which for a document is that of the name the sender gave.
unfoldable pub kind_ext : String → String → String
unfolding ext
kind_ext kind sender_filename =
    if kind == "image"
    then ".jpg"
    else if kind == "video" || kind == "video_note"
    then ".mp4"
    else if kind == "audio" || kind == "voice"
    then ".ogg"
    else if kind == "sticker"
    then ".webp"
    else if kind == "document"
    then (if ext sender_filename == "" then ".bin" else ext sender_filename)
    else ".bin"

-- SavedFilename
unfoldable pub saved_filename : String → String → String → Result String String
unfolding kind_ext base
saved_filename message_id kind sender_filename =
    let name = message_id ++ kind_ext kind sender_filename in
    let b = base name in
    if not (b == name) || (message_id == "" || (has_char b'/' b || has_char b'\\' b))
    then err "derive saved media filename: invalid media filename"
    else ok name

saved_samples :
    (saved_filename "3EB0" "document" "x/report.tar.gz" ≡ ok "3EB0.gz")
    × (saved_filename "../3EB0" "image" ""
        ≡ err "derive saved media filename: invalid media filename")
unfolding saved_filename
saved_samples = (refl, refl)

chat_samples :
    (chat_dir (λ s. s) "/d" "12:3@s" ≡ ok "/d/media/12_3@s")
    × (chat_dir (λ s. s) "/d" "." ≡ ok "/d/media")
unfolding chat_dir
chat_samples = (refl, refl)
