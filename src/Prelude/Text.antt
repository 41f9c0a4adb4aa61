-- ===== src/Prelude/Text.antt =====
-- What the program uses of Go's `strings` and `strconv`, over texts walked character by character.
use Prim.Native.Nat.{Ordering, ℕ, zero, suc, ◌/◌, ◌%◌}
use Prim.Native.Char.{code}
use Prim.Native.String.{compare, String, [], ◌∷◌, ◌++◌}
use mathlib.Core.Path.{◌≡◌, refl}
use mathlib.Core.Bool.{Bool, true, false, ◌&&◌, ◌||◌}
use mathlib.Core.List.{List}
use mathlib.Core.Option.{Option, none, some}
use whatsapp_connect_mcp.Prelude.Tests.{ltb, leb, eqb, if◌then◌else◌}
use whatsapp_connect_mcp.Prelude.Int.{ℤ, pos, negsuc}

-- The number of characters, which is the number of bytes for ASCII.
abbrev pub size : String → ℕ
size [] = 0
size (c ∷ s) = suc (size s)

abbrev pub is_digit : ℕ → Bool
is_digit c = leb b'0' c && leb c b'9'

abbrev pub all_digits : String → Bool
all_digits [] = true
all_digits (c ∷ s) = is_digit (code c) && all_digits s

-- The text before the first `stop`, or all of it: `s[:strings.IndexByte(s, stop)]`.
abbrev pub before : ℕ → String → String
before stop [] = []
before stop (c ∷ s) = let rest = c ∷ before stop s in if eqb (code c) stop then [] else rest

-- The text after the first `stop`; none if there is no `stop`.
abbrev pub after : ℕ → String → Option String
after stop [] = none
after stop (c ∷ s) = let rest = after stop s in if eqb (code c) stop then some s else rest

abbrev pub join : String → List String → String
join sep List.[] = []
join sep (List.◌∷◌ x List.[]) = x
join sep (List.◌∷◌ x (List.◌∷◌ y xs)) = x ++ (sep ++ join sep (List.◌∷◌ y xs))

abbrev pub digit : ℕ → String
digit zero = "0"
digit (suc zero) = "1"
digit (suc (suc zero)) = "2"
digit (suc (suc (suc zero))) = "3"
digit (suc (suc (suc (suc zero)))) = "4"
digit (suc (suc (suc (suc (suc zero))))) = "5"
digit (suc (suc (suc (suc (suc (suc zero)))))) = "6"
digit (suc (suc (suc (suc (suc (suc (suc zero))))))) = "7"
digit (suc (suc (suc (suc (suc (suc (suc (suc zero)))))))) = "8"
digit _ = "9"

-- Decimal digits, with fuel: a number above 9 has fewer digits than its own value.
unfoldable pub decimal : ℕ → ℕ → String
decimal zero n = digit n
decimal (suc fuel) n =
    let longer = decimal fuel (n / 10) ++ digit (n % 10) in if ltb n 10 then digit n else longer

-- strconv.Itoa, strconv.FormatInt(…, 10)
unfoldable pub itoa : ℤ → String
unfolding decimal
itoa (pos n) = decimal n n
itoa (negsuc n) = "-" ++ decimal n (suc n)

abbrev pub only_slashes : String → Bool
only_slashes [] = true
only_slashes (c ∷ s) = eqb (code c) b'/' && only_slashes s

abbrev pub last_element : String → String → String
last_element cur [] = cur
last_element cur (c ∷ s) =
    let next = last_element "" s in
    let longer = last_element (cur ++ (c ∷ [])) s in
    if eqb (code c) b'/' then (if only_slashes s then cur else next) else longer

-- filepath.Base where the separator is a slash
unfoldable pub base : String → String
base [] = "."
base (c ∷ s) = if only_slashes (c ∷ s) then "/" else last_element "" (c ∷ s)

base_samples :
    (base "/a/b.txt" ≡ "b.txt") × (base "a//" ≡ "a") × (base "//" ≡ "/") × (base "" ≡ ".")
unfolding base
base_samples = (refl, refl, refl, refl)

itoa_samples : (itoa (pos 1700) ≡ "1700") × (itoa (negsuc 41) ≡ "-42") × (itoa (pos 0) ≡ "0")
unfolding itoa
itoa_samples = (refl, refl, refl)

-- The order of sort.Strings, and of ORDER BY on a column of text.
abbrev pub text_le : String → String → Bool
text_le a b = elim (compare a b) [ Ordering.lt ↦ true | Ordering.eq ↦ true | Ordering.gt ↦ false ]

abbrev pub text_lt : String → String → Bool
text_lt a b = elim (compare a b) [ Ordering.lt ↦ true | Ordering.eq ↦ false | Ordering.gt ↦ false ]

-- The longest run of digits that a text begins with.
abbrev pub leading_digits : String → String
leading_digits [] = []
leading_digits (c ∷ s) = let rest = c ∷ leading_digits s in if is_digit (code c) then rest else []

-- strings.IndexByte(s, c) >= 0
abbrev pub has_char : ℕ → String → Bool
has_char wanted [] = false
has_char wanted (c ∷ s) = eqb (code c) wanted || has_char wanted s
