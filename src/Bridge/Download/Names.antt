-- ===== src/Bridge/Download/Names.antt =====
-- sanitizeMediaFilename of internal/bridge/bridge.go: which names it lets through.
use Prim.Native.Char.{code}
use Prim.Native.String.{String, [], ◌∷◌, ◌++◌}
use text.Mathlib.TextLemmas.{nil-append, cons-append, append-nil, append_assoc}
use whatsapp_connect_mcp.Prelude.{
  Bool, false, ◌||◌, none, some, ◌==◌, ◌≡◌, ◌↔◌, refl, if◌then◌else◌, arith, eq_iff, eqb,
  Bool-cases, inl, inr, sym,
}
use whatsapp_connect_mcp.Prelude.Text.{base, last_element, has_char}
use whatsapp_connect_mcp.Bridge.Download.{sanitize_media_filename}

last_element-whole : (cur s : String) → has_char b'/' s ≡ false → last_element cur s ≡ cur ++ s
last_element-whole cur [] h = sym (append-nil cur)
last_element-whole cur (c ∷ s) h =
    let other : eqb (code c) b'/' ≡ false = ground (arith, h) in
    rw
      (
        other,
        last_element-whole (cur ++ (c ∷ [])) s (ground (arith, h)),
        append_assoc cur (c ∷ []) s,
        cons-append c [] s,
        nil-append s,
      )
      refl

base-whole : (s : String) → has_char b'/' s ≡ false → (s == "") ≡ false → base s ≡ s
unfolding base
base-whole [] h k = ground (arith, k)
base-whole (c ∷ s) h k =
    let other : eqb (code c) b'/' ≡ false = ground (arith, h) in
    rw
      (
        other,
        last_element-whole ("" ++ (c ∷ [])) s (ground (arith, h)),
        nil-append (c ∷ []),
        cons-append c [] s,
        nil-append s,
      )
      refl

abbrev is_unsafe : String → Bool
is_unsafe f = f == "" || (f == "." || (f == ".." || (has_char b'/' f || has_char b'\\' f)))

sanitize-whole :
    (f : String) → base f ≡ f → sanitize_media_filename f ≡ (if is_unsafe f then none else some f)
unfolding sanitize_media_filename
sanitize-whole f same = rw same (ground (arith, eq_iff f f))

sanitize-other : (f : String) → (base f == f) ≡ false → sanitize_media_filename f ≡ none
unfolding sanitize_media_filename
sanitize-other f h = ground (arith, h)

-- A file name of a sender is let through unchanged exactly if it has no slash and no backslash and
-- is none of the empty name, "." and ".."; no other name is let through, nor is any changed.
pub sanitize_exact :
    (f : String)
    → ((sanitize_media_filename f ≡ some f) ↔ (
        (has_char b'/' f ≡ false)
        × (has_char b'\\' f ≡ false)
        × ((f == "" || (f == "." || f == "..")) ≡ false)))
      × ((name : String) → sanitize_media_filename f ≡ some name → name ≡ f)
sanitize_exact f = elim (Bool-cases (base f == f)) [
  | inr e ↦
      let gone = sanitize-other f e in
      (
        (
          λ h. absurd (ground (arith, h, gone)),
          λ (slash, back, dots).
              absurd
                (ground (arith, e, eq_iff (base f) f, base-whole f slash (ground (arith, dots)))),
        ),
        λ name h. absurd (ground (arith, h, gone)),
      )
  | inl e ↦
      let kept = sanitize-whole f ((eq_iff (base f) f).0 e) in
      (
        (λ h. ground (arith, h, kept), λ h. ground (arith, h, kept)),
        λ name h. ground (arith, h, kept),
      )
]
