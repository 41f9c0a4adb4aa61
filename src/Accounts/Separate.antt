-- ===== src/Accounts/Separate.antt =====
-- internal/accounts/accounts.go: For gives every account a directory of its own.
use Prim.Native.Char.{Char, code}
use Prim.Native.String.{String, [], ◌∷◌, ◌++◌}
use text.Mathlib.TextLemmas.{append_cancel_left, nil-append, cons-append}
use whatsapp_connect_mcp.Prelude.{
  true, false, ◌||◌, ◌↔◌, eqb, ap, ◌==◌, ◌≡◌, refl, Result, ok, arith, eq_iff, Bool-cases, inl, inr,
  subst, sym, ◌∙◌,
}
use whatsapp_connect_mcp.Prelude.Text.{all_digits, is_digit, before}
use whatsapp_connect_mcp.Accounts.{id, dir_name, for_account}

not_pending : (x : String) → all_digits x ≡ true → (x == "_pending") ≡ false
not_pending x h = elim (Bool-cases (x == "_pending")) [
  | inr e ↦ e
  | inl e ↦
      let same : x ≡ "_pending" = (eq_iff x "_pending").0 e in
      absurd (ground (arith, subst (λ y. all_digits y ≡ true) same h))
]

-- What may follow the user part in an address: nothing, a device or a server.
abbrev pub IsTail : String → Type 0
IsTail [] = Unit
IsTail (c ∷ t) = (eqb (code c) b':' || eqb (code c) b'@') ≡ true

digit_apart :
    (c : Char) → is_digit (code c) ≡ true → (eqb (code c) b'@' || eqb (code c) b':') ≡ false
digit_apart c h = ground (arith, h)

before-server :
    (user tail : String)
    → all_digits user ≡ true
    → IsTail tail
    → before b':' (before b'@' (user ++ tail)) ≡ user
before-server [] [] h k = refl
before-server [] (c ∷ t) h k = elim (Bool-cases (eqb (code c) b'@')) [
  | inl e ↦ rw (nil-append (c ∷ t), e) refl
  | inr e ↦
      let colon : eqb (code c) b':' ≡ true = ground (arith, e, k) in
      rw (nil-append (c ∷ t), e, colon) refl
]
before-server (c ∷ user) tail h k =
    let rest = before-server user tail (ground (arith, h)) k in
    let apart = digit_apart c (ground (arith, h)) in
    rw (cons-append c user tail) (ground (arith, rest, apart))

abbrev in_dir : String → String → Result String String
in_dir data_dir user = ok (data_dir ++ ("/accounts/" ++ user))

same_name : (data_dir x y : String) → in_dir data_dir x ≡ in_dir data_dir y → x ≡ y
same_name data_dir x y e =
    append_cancel_left "/accounts/" x y
      (append_cancel_left data_dir ("/accounts/" ++ x) ("/accounts/" ++ y) (ground (arith, e)))

-- A phone number with whatever device and server gives its own digits.
id-user : (user tail : String) → all_digits user ≡ true → IsTail tail → id (user ++ tail) ≡ user
unfolding id
id-user user tail h k = rw (before-server user tail h k, h) refl

for_account-user :
    (data_dir user tail : String)
    → all_digits user ≡ true
    → (user == "") ≡ false
    → IsTail tail
    → for_account true data_dir (user ++ tail) ≡ ok (data_dir ++ ("/accounts/" ++ user))
unfolding for_account dir_name
for_account-user data_dir user tail h some_user k = rw (id-user user tail h k, some_user) refl

for_account-unpaired :
    (data_dir : String) → for_account true data_dir "" ≡ ok (data_dir ++ "/accounts/_pending")
unfolding for_account dir_name id
for_account-unpaired data_dir = refl

-- The account of a phone number, whatever device and server its address has, has the directory
-- named by the number's digits. So two accounts have one directory exactly if they have one number,
-- and an install that has not paired shares its directory with none.
pub for_account-separate :
    (data_dir user tail user' tail' : String)
    → all_digits user ≡ true
    → (user == "") ≡ false
    → IsTail tail
    → all_digits user' ≡ true
    → (user' == "") ≡ false
    → IsTail tail'
    → (for_account true data_dir (user ++ tail) ≡ ok (data_dir ++ ("/accounts/" ++ user)))
      × ((for_account true data_dir (user ++ tail) ≡ for_account true data_dir (user' ++ tail'))
          ↔ (user ≡ user'))
      × ¬ (for_account true data_dir (user ++ tail) ≡ for_account true data_dir "")
for_account-separate data_dir user tail user' tail' h s k h' s' k' =
    let here = for_account-user data_dir user tail h s k in
    let there = for_account-user data_dir user' tail' h' s' k' in
    let unpaired = for_account-unpaired data_dir in
    (
      here,
      (
        λ e. same_name data_dir user user' (sym here ∙ (e ∙ there)),
        λ e. here ∙ (ap (in_dir data_dir) e ∙ sym there),
      ),
      λ e. absurd (
          ground (
            arith,
            not_pending user h,
            eq_iff user "_pending",
            same_name data_dir user "_pending" (sym here ∙ (e ∙ unpaired)),
          )),
    )
