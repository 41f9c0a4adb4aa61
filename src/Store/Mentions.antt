-- ===== src/Store/Mentions.antt =====
-- internal/store/mentions.go: "@<digits>" in a text, rewritten to the name of the account.
use Prim.Native.Char.{code}
use Prim.Native.String.{String, [], ◌∷◌, ◌++◌}
use whatsapp_connect_mcp.Prelude.{
  ℕ, zero, suc, Bool, true, false, ◌&&◌, ◌||◌, not, Option, none, some, ◌==◌, ◌≡◌, refl,
  if◌then◌else◌, eqb, leb, sym, eq_iff, arith, Bool-cases, inl, inr,
}
use whatsapp_connect_mcp.Prelude.Dict.{lookup}
use whatsapp_connect_mcp.Prelude.Table.{first}
use whatsapp_connect_mcp.Prelude.Text.{size, leading_digits, has_char, before}
use whatsapp_connect_mcp.Store.Types.{Contact, Db, or_else}
use whatsapp_connect_mcp.Store.Ingest.{is_contact}

-- strings.ReplaceAll(s, "\t", " ")
abbrev pub untabbed : String → String
untabbed [] = []
untabbed (c ∷ s) = let rest = untabbed s in if eqb (code c) 9 then " " ∷ rest else c ∷ rest

abbrev contact_name : Option Contact → String
contact_name none = ""
contact_name (some c) = or_else c.full_name (or_else c.push_name c.business_name)

abbrev named : Db → String → String
named db jid = untabbed (contact_name (first (is_contact jid) db.contacts))

abbrev pub text_or : String → Option String → String
text_or fallback none = fallback
text_or fallback (some t) = t

-- mentionName
unfoldable pub mention_name : Db → String → String
mention_name db digits =
    let lid = digits ++ "@lid" in
    let pn = text_or "" (lookup lid db.lid_map) in
    let by_phone = if pn == "" then "" else named db pn in
    let user = if has_char b'@' pn then before b'@' pn else "" in
    or_else (named db lid)
      (or_else by_phone (or_else (named db (digits ++ "@s.whatsapp.net")) user))

-- \s
abbrev is_space : ℕ → Bool
is_space c = eqb c 32 || (leb 9 c && leb c 10) || (leb 12 c && leb c 13)

-- The rewriting of mentionRE's matches, `(^|\s)@(\d{5})`. The number counts the digits of a
-- match that are still to be passed over, the Boolean says that a match may start here: at the
-- start of the text, or after a space.
unfoldable pub rewrite_mentions : (String → String) → ℕ → Bool → String → String
rewrite_mentions name skip start [] = []
rewrite_mentions name (suc skip) start (c ∷ s) = rewrite_mentions name skip false s
rewrite_mentions name zero start (c ∷ s) =
    let digits = leading_digits s in
    let passed = rewrite_mentions name (size digits) false s in
    let rest = rewrite_mentions name zero (is_space (code c)) s in
    if eqb (code c) b'@' && (start && (leb 5 (size digits) && not (name digits == "")))
    then "@" ++ (name digits ++ passed)
    else c ∷ rest

-- resolveMentions. Its cache only spares lookups.
unfoldable pub resolve_mentions : Db → String → String
unfolding rewrite_mentions
resolve_mentions db text =
    if has_char b'@' text then rewrite_mentions (mention_name db) 0 true text else text

-- Names that are not on record leave a text as it arrived.
pub unresolved_mentions :
    (name : String → String) (start : Bool) (text : String)
    → ((digits : String) → name digits ≡ "")
    → rewrite_mentions name 0 start text ≡ text
unfolding rewrite_mentions
unresolved_mentions name start [] h = refl
unresolved_mentions name start (c ∷ s) h = ground (
  arith,
  h (leading_digits s),
  eq_iff (name (leading_digits s)) "",
  unresolved_mentions name (is_space (code c)) s h,
)

rewrite_mentions_untouched :
    (name : String → String) (start : Bool) (t : String)
    → has_char b'@' t ≡ false
    → rewrite_mentions name 0 start t ≡ t
unfolding rewrite_mentions
rewrite_mentions_untouched name start [] h = refl
rewrite_mentions_untouched name start (c ∷ s) h =
    ground (arith, h, rewrite_mentions_untouched name (is_space (code c)) s)

-- The test for "@" before the scan is an optimisation only.
pub resolve_mentions_fast_path :
    (db : Db) (text : String)
    → resolve_mentions db text ≡ rewrite_mentions (mention_name db) 0 true text
unfolding resolve_mentions
resolve_mentions_fast_path db text = elim (Bool-cases (has_char b'@' text)) [
  | inl e ↦ rw e refl
  | inr e ↦ rw e (sym (rewrite_mentions_untouched (mention_name db) true text e))
]
