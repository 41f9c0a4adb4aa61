-- ===== src/MediaNames/Distinct.antt =====
-- internal/medianame/medianame.go: which messages share a file, and where it can lie.
use Prim.Native.Char.{code}
use Prim.Native.String.{String, [], ◌∷◌, ◌++◌}
use text.Mathlib.TextLemmas.{nil-append, cons-append}
use whatsapp_connect_mcp.Prelude.{
  Bool, true, false, ◌||◌, Option, none, some, ◌==◌, ◌≡◌, refl, if◌then◌else◌, eqb, ok, arith,
  eq_iff, Option-cases, inl, inr, sym, subst,
}
use whatsapp_connect_mcp.Prelude.Text.{base, has_char}
use whatsapp_connect_mcp.Tools.Send.{ext, ext_from}
use whatsapp_connect_mcp.MediaNames.{kind_ext, saved_filename}

-- The text before its last dot.
unfoldable stem : String → Option String
stem [] = none
stem (c ∷ s) = elim (stem s) [
  | some r ↦ some (c ∷ r)
  | none ↦ if eqb (code c) b'.' then some [] else none
]

-- A dot, and no other dot after it.
abbrev IsExt : String → Type 0
IsExt [] = ⊥
IsExt (c ∷ s) = (eqb (code c) b'.' ≡ true) × (has_char b'.' s ≡ false)

stem-none : (s : String) → has_char b'.' s ≡ false → stem s ≡ none
unfolding stem
stem-none [] h = refl
stem-none (c ∷ s) h =
    let rest : stem s ≡ none = stem-none s (ground (arith, h)) in rw rest (ground (arith, h))

stem-append : (id e : String) → IsExt e → stem (id ++ e) ≡ some id
unfolding stem
stem-append [] [] h = elim h [ ]
stem-append [] (c ∷ s) h =
    let rest : stem s ≡ none = stem-none s h.1 in rw (nil-append (c ∷ s), rest, h.0) refl
stem-append (d ∷ id) e h =
    let rest : stem (id ++ e) ≡ some id = stem-append id e h in
    let longer : stem (d ∷ (id ++ e)) ≡ some (d ∷ id) = ground (arith, rest) in
    subst (λ x. stem x ≡ some (d ∷ id)) (sym (cons-append d id e)) longer

ext_from-none : (s : String) → ext_from s ≡ none → has_char b'/' s ≡ false → has_char b'.' s ≡ false
ext_from-none [] h k = refl
ext_from-none (c ∷ s) h k = elim (Option-cases (ext_from s)) [
  | inl e ↦
      let rest : has_char b'.' s ≡ false = ext_from-none s e (ground (arith, k)) in
      ground (arith, h, e, k, rest)
  | inr (x, e) ↦ ground (arith, h, e)
]

ext_from-IsExt : (s e : String) → ext_from s ≡ some e → IsExt e
ext_from-IsExt [] e h = absurd (ground (arith, h))
ext_from-IsExt (c ∷ s) e h = elim (Option-cases (ext_from s)) [
  | inr (x, k) ↦ ext_from-IsExt s e (ground (arith, h, k))
  | inl k ↦
      let whole : c ∷ s ≡ e = ground (arith, h, k) in
      let slash : has_char b'/' s ≡ false = ground (arith, h, k) in
      let dot : eqb (code c) b'.' ≡ true = ground (arith, h, k) in
      subst IsExt whole (dot, ext_from-none s k slash)
]

if-IsExt : (b : Bool) (x y : String) → IsExt x → IsExt y → IsExt (if b then x else y)
if-IsExt true x y h k = h
if-IsExt false x y h k = k

ext-found :
    (f : String) (o : Option String) → ext_from f ≡ o → ext f ≡ elim o [ none ↦ "" | some e ↦ e ]
unfolding ext
ext-found f none h = ground (arith, h)
ext-found f (some e) h = ground (arith, h)

document-IsExt :
    (o : Option String) (f : String)
    → ext_from f ≡ o
    → IsExt (if ext f == "" then ".bin" else ext f)
document-IsExt none f h =
    subst (λ x. IsExt (if x == "" then ".bin" else x)) (sym (ext-found f none h)) (refl, refl)
document-IsExt (some e) f h =
    subst (λ x. IsExt (if x == "" then ".bin" else x)) (sym (ext-found f (some e) h))
      (if-IsExt (e == "") ".bin" e (refl, refl) (ext_from-IsExt f e h))

kind_ext-IsExt : (kind f : String) → IsExt (kind_ext kind f)
unfolding kind_ext
kind_ext-IsExt kind f =
    if-IsExt (kind == "image") _ _ (refl, refl)
      (if-IsExt (kind == "video" || kind == "video_note") _ _ (refl, refl)
        (if-IsExt (kind == "audio" || kind == "voice") _ _ (refl, refl)
          (if-IsExt (kind == "sticker") _ _ (refl, refl)
            (if-IsExt (kind == "document") _ _ (document-IsExt (ext_from f) f refl) (refl, refl)))))

stem-saved_filename :
    (id kind f name : String) → saved_filename id kind f ≡ ok name → stem name ≡ some id
unfolding saved_filename
stem-saved_filename id kind f name h =
    let same : id ++ kind_ext kind f ≡ name = ground (arith, h) in
    subst (λ n. stem n ≡ some id) same (stem-append id (kind_ext kind f) (kind_ext-IsExt kind f))

-- Two messages whose media are saved under one name have one id, whatever their kinds are and
-- whatever names their senders gave. A saved name is a single element of a path: it is its own base
-- and has no slash and no backslash.
pub saved_filename-distinct :
    (id id' kind kind' f f' : String) {name : String}
    → saved_filename id kind f ≡ ok name
    → ((saved_filename id' kind' f' ≡ ok name → id ≡ id')
        × (base name ≡ name)
        × (has_char b'/' name ≡ false)
        × (has_char b'\\' name ≡ false))
unfolding saved_filename
saved_filename-distinct id id' kind kind' f f' {name} h =
    let same : id ++ kind_ext kind f ≡ name = ground (arith, h) in
    let own : base name ≡ name = ground (arith, h, same, eq_iff (base name) name) in
    (
      λ h'.
          ground
            (arith, stem-saved_filename id kind f name h, stem-saved_filename id' kind' f' name h'),
      own,
      ground (arith, h, same, own),
      ground (arith, h, same, own),
    )
