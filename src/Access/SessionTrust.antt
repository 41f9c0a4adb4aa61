-- ===== src/Access/SessionTrust.antt =====
-- internal/sessiontrust/sessiontrust.go: grants that live as long as the serve process. The state
-- is the grant file: missing, not to be read, or its lines. (No identity holds a line break.)
use whatsapp_connect_mcp.Prelude.{
  String, Bool, true, false, not, ◌||◌, List, [], ◌∷◌, ◌++◌, ◌==◌, ◌≡◌, refl, contains,
  contains-append, keep, length, eqb, Result, ok, err, arith, eq_iff, if◌then◌else◌, Bool-cases,
  inl, inr, Option, none, some, All, ap,
}

pub data GrantFile : Type 0 where
  no_file broken : GrantFile
  lines : List String → GrantFile

pub data TrustError : Type 0 where
  jid_required read_failed clear_failed write_failed : TrustError

-- strings.TrimSpace, and what the disk does at a write and at a removal.
pub record Disk : Type 0 where
  pub trim_space : String → String
  pub writes : Bool
  pub removes : Bool

module _ (d : Disk) where
  abbrev trimmed_lines : List String → List String
  trimmed_lines [] = []
  trimmed_lines (l ∷ ls) =
      let rest = trimmed_lines ls in if d.trim_space l == "" then rest else d.trim_space l ∷ rest

  -- readGrants
  unfoldable pub read_grants : GrantFile → Result TrustError (List String)
  read_grants no_file = ok []
  read_grants broken = err read_failed
  read_grants (lines ls) = ok (trimmed_lines ls)

  -- writeGrants. The text after the last newline is an empty line.
  unfoldable pub write_grants : List String → GrantFile → Option TrustError × GrantFile
  write_grants jids f =
      if d.writes then (none, lines (jids ++ ("" ∷ []))) else (some write_failed, f)

  -- ClearAtStartup
  unfoldable pub clear_at_startup : GrantFile → Option TrustError × GrantFile
  clear_at_startup no_file = (none, no_file)
  clear_at_startup f = if d.removes then (none, no_file) else (some clear_failed, f)

  unfoldable pub trusted : String → GrantFile → Bool
  unfolding read_grants
  trusted jid f =
      if jid == ""
      then false
      else elim (read_grants f) [ err e ↦ false | ok jids ↦ contains jids jid ]

  unfoldable pub add : String → GrantFile → Option TrustError × GrantFile
  unfolding read_grants write_grants
  add text f =
      let jid = d.trim_space text in
      if jid == "" then (some jid_required, f) else elim (read_grants f) [
        | err e ↦ (some e, f)
        | ok jids ↦ if contains jids jid then (none, f) else write_grants (jids ++ (jid ∷ [])) f
      ]

  unfoldable pub remove : String → GrantFile → Option TrustError × GrantFile
  unfolding read_grants write_grants clear_at_startup
  remove text f = elim (read_grants f) [
    | err e ↦ (some e, f)
    | ok jids ↦
        let kept = keep (λ g. not (g == d.trim_space text)) jids in
        if eqb (length kept) (length jids)
        then (none, f)
        else if eqb (length kept) 0
        then clear_at_startup f
        else write_grants kept f
  ]

  module _ (blank : d.trim_space "" ≡ "")
      (trimmed : (t : String) → d.trim_space (d.trim_space t) ≡ d.trim_space t) where
    abbrev IsGrant : String → Type 0
    IsGrant g = (d.trim_space g ≡ g) × ((g == "") ≡ false)

    trimmed_lines-IsGrant : (ls : List String) → All IsGrant (trimmed_lines ls)
    trimmed_lines-IsGrant [] = tt
    trimmed_lines-IsGrant (l ∷ ls) = elim (Bool-cases (d.trim_space l == "")) [
      | inl e ↦ rw e (trimmed_lines-IsGrant ls)
      | inr e ↦ rw e ((trimmed l, e), trimmed_lines-IsGrant ls)
    ]

    written_lines : (gs : List String) → All IsGrant gs → trimmed_lines (gs ++ ("" ∷ [])) ≡ gs
    written_lines [] h = rw blank refl
    written_lines (g ∷ gs) h = rw (h.0.0, h.0.1) (ap (λ xs. g ∷ xs) (written_lines gs h.1))

    All-append_one :
        (gs : List String) (g : String) → All IsGrant gs → IsGrant g → All IsGrant (gs ++ (g ∷ []))
    All-append_one [] g h p = (p, tt)
    All-append_one (x ∷ xs) g h p = (h.0, All-append_one xs g h.1 p)

    -- Where the grant file can be read and written, adding an identity trusts exactly it and those
    -- trusted before. (An empty identity is never trusted.)
    pub add_exact :
        (text jid : String) (ls : List String)
        → d.writes ≡ true
        → (d.trim_space text == "") ≡ false
        → trusted jid (add text (lines ls)).1 ≡ (trusted jid (lines ls) || jid == d.trim_space text)
    unfolding trusted add read_grants write_grants
    add_exact text jid ls w nonempty =
        elim (Bool-cases (contains (trimmed_lines ls) (d.trim_space text))) [
          | inl e ↦
              rw (nonempty, e)
                (ground (arith, e, nonempty, eq_iff jid (d.trim_space text), eq_iff jid ""))
          | inr e ↦
              rw
                (
                  nonempty,
                  e,
                  w,
                  written_lines (trimmed_lines ls ++ (d.trim_space text ∷ [])) (
                      All-append_one (trimmed_lines ls) (d.trim_space text)
                        (trimmed_lines-IsGrant ls) (trimmed text, nonempty)),
                  contains-append (trimmed_lines ls) (d.trim_space text ∷ []) jid,
                )
                (ground (
                  arith,
                  nonempty,
                  eq_iff jid (d.trim_space text),
                  eq_iff (d.trim_space text) jid,
                  eq_iff jid "",
                ))
        ]

    -- After the clearing at startup nobody is trusted, if the file could be removed or was missing.
    pub clear_at_startup_exact :
        (f : GrantFile) (jid : String)
        → (clear_at_startup f).0 ≡ none
        → trusted jid (clear_at_startup f).1 ≡ false
    unfolding trusted clear_at_startup read_grants
    clear_at_startup_exact no_file jid h = ground arith
    clear_at_startup_exact broken jid h = ground arith
    clear_at_startup_exact (lines ls) jid h = ground arith
