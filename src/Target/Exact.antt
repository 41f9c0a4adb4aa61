-- ===== src/Target/Exact.antt =====
-- What Resolve of internal/target/target.go answers.
use Prim.Native.String.{String, ◌++◌}
use Prim.Native.Char.{code}
use whatsapp_connect_mcp.Prelude.{
  ◌≤◌, Bool, if◌then◌else◌, true, false, Option, none, some, List, [], ◌∷◌, ◌==◌, ◌≡◌, ◌⊎◌, refl,
  arith, Result, ok, err, Bool-cases, inl, inr, Option-cases, subst,
}
use whatsapp_connect_mcp.Prelude.Text.{size, is_digit}
use whatsapp_connect_mcp.Target.{
  Candidate, Lookup, Strings, TargetError, is_jid, phone_chars, phone_of, as_phone, search, choose,
  named_or, resolve,
}

-- The digits of a text, in their order.
unfoldable pub digits_of : String → String
digits_of String.[] = ""
digits_of (String.◌∷◌ c s) =
    let rest = digits_of s in if is_digit (code c) then (String.◌∷◌ c "") ++ rest else rest

phone_chars-digits_of :
    (start : Bool) (s : String) {d : String} → phone_chars start s ≡ some d → d ≡ digits_of s
unfolding phone_chars digits_of
phone_chars-digits_of start String.[] h = ground (arith, h)
phone_chars-digits_of start (String.◌∷◌ c s) {d} h = elim (Option-cases (phone_chars false s)) [
  | inl e ↦ ground (arith, h, e)
  | inr (r, e) ↦
      let rest : r ≡ digits_of s = phone_chars-digits_of false s e in ground (arith, h, e, rest)
]

phone_of-bounds :
    (o : Option String) {d : String}
    → phone_of o ≡ some d
    → (o ≡ some d) × (7 ≤ size d) × (size d ≤ 15)
phone_of-bounds none h = ground arith
phone_of-bounds (some x) h = ground (arith, h)

choose_lem :
    (input : String) (r : Result TargetError (List Candidate)) {jid : String}
    → choose input r ≡ ok jid
    → (c : Candidate) × (r ≡ ok (c ∷ [])) × (c.jid ≡ jid)
choose_lem input (err e) h = ground arith
choose_lem input (ok []) h = ground arith
choose_lem input (ok (c ∷ [])) h = (c, refl, ground arith)
choose_lem input (ok (c ∷ d ∷ cs)) h = ground arith

named_or_lem :
    (input : String) (by_name : Result TargetError String) (o : Option String) {jid : String}
    → named_or input by_name (phone_of o) ≡ ok jid
    → ((d : String) × (o ≡ some d) × (7 ≤ size d) × (size d ≤ 15) × (jid ≡ d ++ "@s.whatsapp.net"))
      ⊎ (by_name ≡ ok jid)
named_or_lem input by_name o {jid} h = elim (Option-cases (phone_of o)) [
  | inl e ↦ inr (cc (h, e))
  | inr (d, e) ↦
      let (same, low, high) = phone_of-bounds o e in inl (d, same, low, high, ground (arith, h, e))
]

-- What Resolve answers is the JID that was typed, or the phone JID of the digits that were typed,
-- of which there are 7 to 15, or the only candidate that the name matched: it never picks one of
-- several.
pub resolve_never_guesses :
    (str : Strings) (l : Lookup) (input : String) {jid : String}
    → resolve str l input ≡ ok jid
    → let typed = str.trim_space input in
      ((jid ≡ typed) × (is_jid typed ≡ true))
      ⊎ (((jid ≡ digits_of typed ++ "@s.whatsapp.net")
            × (7 ≤ size (digits_of typed))
            × (size (digits_of typed) ≤ 15))
          ⊎ ((c : Candidate) × (search str l typed ≡ ok (c ∷ [])) × (c.jid ≡ jid)))
unfolding resolve as_phone
resolve_never_guesses str l input {jid} h =
    let typed = str.trim_space input in
    elim (Bool-cases (typed == "")) [
      | inl blank ↦ ground (arith, h, blank)
      | inr given ↦ elim (Bool-cases (is_jid typed)) [
        | inl whole ↦ inl (ground (arith, h, given, whole), whole)
        | inr other ↦
            elim (named_or_lem typed (choose typed (search str l typed)) (phone_chars true typed)
              {jid = jid} (ground (arith, h, given, other))) [
                | inl (d, e, low, high, same) ↦
                    let digits : d ≡ digits_of typed = phone_chars-digits_of true typed e in
                    inr (
                      inl (
                        subst (λ x. (jid ≡ x ++ "@s.whatsapp.net") × (7 ≤ size x) × (size x ≤ 15))
                          digits (same, low, high)))
                | inr by_name ↦ inr (inr (choose_lem typed (search str l typed) by_name))
              ]
      ]
    ]
