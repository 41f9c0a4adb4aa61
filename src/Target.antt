-- ===== src/Target.antt =====
-- internal/target/target.go: what a person types, a number, a name or a JID, turned into a JID.
-- strings.TrimSpace, strings.ToLower and strings.Contains are parameters.
pub mod Unique
pub mod Exact
use Prim.Native.Char.{code}
use Prim.Native.String.{String, [], ◌∷◌, ◌++◌}
use whatsapp_connect_mcp.Prelude.{
  ℕ, zero, suc, Bool, true, false, not, ◌&&◌, ◌||◌, Option, none, some, List, ◌==◌, Result, ok, err,
  if◌then◌else◌, eqb, ltb, leb, contains, map,
}
use mathlib.Core.List
use whatsapp_connect_mcp.Prelude.Int.{ℤ, pos}
use whatsapp_connect_mcp.Prelude.Text.{size, is_digit}
use whatsapp_connect_mcp.Store.Rows.{ContactRow, ChatRow}

pub record Candidate : Type 0 where
  pub jid : String
  pub name : String
  pub phone : String
  pub is_group : Bool

-- The two queries of the message store, each of which can fail.
pub record Lookup : Type 0 where
  pub search_contacts : String → ℤ → Result String (List ContactRow)
  pub chats : String → Bool → ℤ → Result String (List ChatRow)

pub record Strings : Type 0 where
  pub trim_space : String → String
  pub to_lower : String → String
  pub has_part : String → String → Bool

pub data TargetError : Type 0 where
  nothing_to_look_up : TargetError
  no_match : String → TargetError
  ambiguous : String → List Candidate → TargetError
  lookup_failed : String → TargetError

abbrev pub search_limit : ℤ
search_limit = pos 50

abbrev at_of : ℕ → String → Option (ℕ × String) → Option (ℕ × String)
at_of c s (some p) = some (suc p.0, p.1)
at_of c s none = if eqb c b'@' then some (0, s) else none

-- strings.LastIndex(s, "@"), and the text after it.
unfoldable pub last_at : String → Option (ℕ × String)
last_at [] = none
last_at (c ∷ s) = at_of (code c) s (last_at s)

abbrev servers : List String
servers =
    List.◌∷◌ "s.whatsapp.net"
      (List.◌∷◌ "g.us" (List.◌∷◌ "lid" (List.◌∷◌ "broadcast" (List.◌∷◌ "newsletter" List.[]))))

abbrev pub is_jid_at : Option (ℕ × String) → Bool
is_jid_at none = false
is_jid_at (some p) = ltb 0 p.0 && contains servers p.1

-- IsJID
unfoldable pub is_jid : String → Bool
unfolding last_at
is_jid s = is_jid_at (last_at s)

abbrev is_punctuation : ℕ → Bool
is_punctuation c = eqb c 32 || (eqb c b'-' || (eqb c b'.' || (eqb c b'(' || eqb c b')')))

abbrev before_digit : String → Option String → Option String
before_digit c none = none
before_digit c (some ds) = some (c ++ ds)

-- The loop of asPhone. `start` says that the character is the first.
unfoldable pub phone_chars : Bool → String → Option String
phone_chars start [] = some []
phone_chars start (c ∷ s) =
    let rest = phone_chars false s in
    if is_digit (code c)
    then before_digit (c ∷ []) rest
    else if (eqb (code c) b'+' && start) || is_punctuation (code c)
    then rest
    else none

abbrev pub phone_of : Option String → Option String
phone_of none = none
phone_of (some d) = if ltb (size d) 7 || ltb 15 (size d) then none else some d

-- asPhone
unfoldable pub as_phone : String → Option String
unfolding phone_chars
as_phone s = phone_of (phone_chars true s)

-- A loop of Search: the rows that pass `shows`, each identity once and none that was seen.
unfoldable pub unseen :
    {A : Type 0} → (A → Bool) → (A → Candidate) → List String → List A → List Candidate
unseen shows candidate seen List.[] = List.[]
unseen shows candidate seen (List.◌∷◌ x xs) =
    let c = candidate x in
    let rest = unseen shows candidate seen xs in
    let next = unseen shows candidate (List.◌∷◌ c.jid seen) xs in
    if contains seen c.jid || not (shows x) then rest else List.◌∷◌ c next

abbrev pub person : ContactRow → Candidate
person c = record { jid = c.jid; name = c.name; phone = c.phone; is_group = false }

abbrev pub conversation : ChatRow → Candidate
conversation c = record { jid = c.jid; name = c.name; phone = ""; is_group = c.is_group }

-- The candidates of the rows that the two queries answered.
unfoldable pub candidates : (ChatRow → Bool) → List ContactRow → List ChatRow → List Candidate
unfolding unseen
candidates shows contacts chats =
    let people = unseen (λ c. true) person List.[] contacts in
    List.◌++◌ people (unseen shows conversation (map (λ c. c.jid) people) chats)

abbrev found :
    (ChatRow → Bool)
    → List ContactRow
    → Result String (List ChatRow)
    → Result TargetError (List Candidate)
found shows contacts (err e) = err (lookup_failed e)
found shows contacts (ok chats) = ok (candidates shows contacts chats)

-- Search
unfoldable pub search : Strings → Lookup → String → Result TargetError (List Candidate)
unfolding candidates
search str l input =
    let needle = str.to_lower (str.trim_space input) in
    if needle == "" then ok List.[] else elim (l.search_contacts input search_limit) [
      | err e ↦ err (lookup_failed e)
      | ok contacts ↦
          found (λ c. str.has_part (str.to_lower c.name) needle) contacts
            (l.chats input true search_limit)
    ]

abbrev pub choose : String → Result TargetError (List Candidate) → Result TargetError String
choose input (err e) = err e
choose input (ok List.[]) = err (no_match input)
choose input (ok (List.◌∷◌ c List.[])) = ok c.jid
choose input (ok (List.◌∷◌ c (List.◌∷◌ d cs))) = err (ambiguous input (List.◌∷◌ c (List.◌∷◌ d cs)))

abbrev pub named_or : String → Result TargetError String → Option String → Result TargetError String
named_or input by_name none = by_name
named_or input by_name (some digits) = ok (digits ++ "@s.whatsapp.net")

-- Resolve
unfoldable pub resolve : Strings → Lookup → String → Result TargetError String
unfolding search is_jid as_phone
resolve str l input =
    let typed = str.trim_space input in
    if typed == ""
    then err nothing_to_look_up
    else if is_jid typed
    then ok typed
    else named_or typed (choose typed (search str l typed)) (as_phone typed)
