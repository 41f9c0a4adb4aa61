-- ===== src/Bridge/Download.antt =====
-- internal/bridge/bridge.go: DownloadMedia and sanitizeMediaFilename. proto.Unmarshal, the client's
-- download and the disk are parameters; the files written are recorded.
pub mod Names
pub mod Attachments
use Prim.Native.String.{◌++◌ as concat}
use whatsapp_connect_mcp.Prelude.{
  String, Bool, true, false, not, ◌||◌, Option, none, some, List, ◌∷◌, ◌==◌, if◌then◌else◌, Result,
  ok, err,
}
use whatsapp_connect_mcp.Prelude.Text.{base, has_char}
use whatsapp_connect_mcp.Bridge.Outbound.{
  Failure, FileFailure, wa_err_category, file_err, unpaired_or,
}
use whatsapp_connect_mcp.Bridge.Content
use whatsapp_connect_mcp.Bridge.Content.{Payload, payload, first_of}

-- The attachments that Client.Download takes.
pub data Attachment : Type 0 where
  image video ptv audio document sticker : Attachment

abbrev present : {A : Type 0} → Option A → Attachment → Option Attachment
present none k = none
present (some a) k = some k

-- The switch of downloadMessage.
unfoldable pub attachment : Payload → Option Attachment
attachment p = first_of (present p.image image) (
    first_of (present p.video video) (
      first_of (present p.ptv ptv) (
        first_of (present p.audio audio)
          (first_of (present p.document document) (present p.sticker sticker)))))

unfoldable pub sanitize_media_filename : String → Option String
sanitize_media_filename filename =
    let b = base filename in
    if not (b == filename)
      || (b == "" || (b == "." || (b == ".." || (has_char b'/' b || has_char b'\\' b))))
    then none
    else some b

pub record Downloads : Type 0 where
  pub unmarshal : String → Option Content.Message
  pub download : Content.Message → Attachment → Result Failure String
  pub mkdir : String → Option FileFailure
  pub write_file : String → String → Option FileFailure
  pub needs_pairing : Bool

-- The files written so far, by directory, name and content; and the calls of Client.Download.
pub record Media : Type 0 where
  pub files : List (String × (String × String))
  pub asked : List Attachment

module _ (io : Downloads) where
  abbrev Answer : Type 0
  Answer = Result String String × Media

  abbrev failed_download : Failure → String
  failed_download f = unpaired_or io.needs_pairing "download media" f

  abbrev pub written : String → String → String → Media → Option FileFailure → Answer
  written dir name content m (some f) = (err (file_err "write media file" f), m)
  written dir name content m none =
      (ok (concat dir (concat "/" name)), record m { files = (dir, (name, content)) ∷ m.files })

  abbrev pub made : String → String → String → Media → Option FileFailure → Answer
  made dir name content m (some f) = (err (file_err "create media directory" f), m)
  made dir name content m none = written dir name content m (io.write_file dir content)

  abbrev pub downloaded : String → String → Media → Result Failure String → Answer
  downloaded dir name m (err f) = (err (failed_download f), m)
  downloaded dir name m (ok content) = made dir name content m (io.mkdir dir)

  -- downloadMessage, where nothing to download is a failure of the other kind.
  abbrev attached : String → String → Content.Message → Media → Option Attachment → Answer
  attached dir name msg m none = (err (failed_download Failure.other), m)
  attached dir name msg m (some k) =
      downloaded dir name (record m { asked = k ∷ m.asked }) (io.download msg k)

  abbrev named : String → Content.Message → Media → Option String → Answer
  named dir msg m none = (err "invalid media filename", m)
  named dir msg m (some name) = attached dir name msg m (attachment (payload msg))

  abbrev decoded : String → String → Media → Option Content.Message → Answer
  decoded dir filename m none = (err "invalid media reference", m)
  decoded dir filename m (some msg) = named dir msg m (sanitize_media_filename filename)

  -- DownloadMedia; a path is its directory and the name that it is joined with.
  unfoldable pub download_media : String → String → String → Media → Answer
  unfolding sanitize_media_filename attachment
  download_media ref dir filename m = decoded dir filename m (io.unmarshal ref)
