-- ===== src/Store/Poll/Tail.antt =====
-- TailRowID of internal/store/query.go: the cursor before the newest rows.
use whatsapp_connect_mcp.Prelude.{
  ℕ, zero, suc, ◌-◌, ◌≤◌, ◌<◌, String, Bool, true, ◌&&◌, Option, none, some, List, [], ◌∷◌, ◌++◌,
  ◌≡◌, refl, arith, All, All-map, All-keep-All, Bool-cases, inl, inr, keep, length, ltb, eqb,
  if◌then◌else◌, length-append, sym, subst,
}
use whatsapp_connect_mcp.Prelude.Int.{pos}
use whatsapp_connect_mcp.Store.Types.{Stored, Db}
use whatsapp_connect_mcp.Store.Query.{reverse}
use whatsapp_connect_mcp.Store.Poll.{Ascending, past, is_polled, nth, before_row, tail_rowid}

-- The rows are past `c`.
abbrev After : ℕ → List Stored → Type 0
After c xs = All (λ x. past c x ≡ true) xs

length-reverse : (xs : List Stored) → length (reverse xs) ≡ length xs
length-reverse [] = refl
length-reverse (x ∷ xs) = omega (arith, length-append (reverse xs) (x ∷ []), length-reverse xs)

nth-append :
    (n : ℕ) (xs : List Stored) (m : Stored)
    → nth n (xs ++ (m ∷ []))
      ≡ (if ltb n (length xs) then nth n xs else if eqb n (length xs) then some m else none)
nth-append zero [] m = refl
nth-append (suc n) [] m = ground arith
nth-append zero (x ∷ xs) m = ground arith
nth-append (suc n) (x ∷ xs) m = ground (arith, nth-append n xs m)

nth-floor : (c n : ℕ) (xs : List Stored) → After c xs → n < length xs → c ≤ before_row (nth n xs)
nth-floor c n [] h lt = omega arith
nth-floor c zero (x ∷ xs) h lt = ground (arith, h.0)
nth-floor c (suc n) (x ∷ xs) h lt = nth-floor c n xs h.1 (omega arith)

After-append :
    (c : ℕ) (xs : List Stored) (m : Stored)
    → After c xs
    → past c m ≡ true
    → After c (xs ++ (m ∷ []))
After-append c [] m h p = (p, tt)
After-append c (x ∷ xs) m h p = (h.0, After-append c xs m h.1 p)

After-reverse : (c : ℕ) (xs : List Stored) → After c xs → After c (reverse xs)
After-reverse c [] h = tt
After-reverse c (x ∷ xs) h = After-append c (reverse xs) x (After-reverse c xs h.1) h.0

all_past : (c : ℕ) (xs : List Stored) → After c xs → length (keep (past c) xs) ≡ length xs
all_past c [] h = refl
all_past c (x ∷ xs) h = ground (arith, h.0, all_past c xs h.1)

nth-reverse :
    (n : ℕ) (m : Stored) (ms : List Stored)
    → nth n (reverse (m ∷ ms)) ≡ (
        if ltb n (length ms)
        then nth n (reverse ms)
        else if eqb n (length ms)
        then some m
        else none)
nth-reverse n m ms = rw (sym (length-reverse ms)) (nth-append n (reverse ms) m)

-- How many rows lie after the row that is `n` rows before the newest.
tail_count :
    (n : ℕ) (xs : List Stored)
    → Ascending xs
    → After 0 xs
    → length (keep (past (before_row (nth n (reverse xs)))) xs)
      ≡ (if ltb n (length xs) then suc n else length xs)
tail_count n [] h p = ground arith
tail_count n (m ∷ ms) h p =
    let Count : Option Stored → Type 0 = λ o.
      length (keep (past (before_row o)) (m ∷ ms))
      ≡ (if ltb n (suc (length ms)) then suc n else suc (length ms)) in
    elim (Bool-cases (ltb n (length ms))) [
      | inl inside ↦
          let row : nth n (reverse ms) ≡ nth n (reverse (m ∷ ms)) =
            ground (arith, nth-reverse n m ms, inside) in
          subst Count row (
            ground (
              arith,
              inside,
              tail_count n ms h.1 p.1,
              nth-floor m.rowid n (reverse ms) (After-reverse m.rowid ms h.0)
                  (ground (arith, inside, length-reverse ms)),
            ))
      | inr outside ↦ elim (Bool-cases (eqb n (length ms))) [
        | inl here ↦
            let row : some m ≡ nth n (reverse (m ∷ ms)) =
              ground (arith, nth-reverse n m ms, outside, here) in
            subst Count row (
              ground (
                arith,
                here,
                p.0,
                all_past (m.rowid - 1) ms (All-map (λ x q. ground (arith, q)) ms h.0),
              ))
        | inr beyond ↦
            let row : none ≡ nth n (reverse (m ∷ ms)) =
              ground (arith, nth-reverse n m ms, outside, beyond) in
            subst Count row (ground (arith, outside, beyond, p.0, all_past 0 ms p.1))
      ]
    ]

keep-both :
    (p q : Stored → Bool) (ms : List Stored) → keep (λ m. p m && q m) ms ≡ keep p (keep q ms)
keep-both p q [] = refl
keep-both p q (m ∷ ms) = ground (arith, keep-both p q ms)

keep-Ascending : (q : Stored → Bool) (ms : List Stored) → Ascending ms → Ascending (keep q ms)
keep-Ascending q [] h = tt
keep-Ascending q (m ∷ ms) h = elim (Bool-cases (q m)) [
  | inl e ↦ rw e (All-keep-All (λ x. past m.rowid x ≡ true) q ms h.0, keep-Ascending q ms h.1)
  | inr e ↦ rw e (keep-Ascending q ms h.1)
]

-- Where the messages stand in the order of their rowids, all positive: for a tail of `suc n` rows,
-- exactly the newest `suc n` matching messages have a rowid past the cursor, and all of them where
-- there are fewer.
pub tail_rowid_exact :
    (db : Db) (jid : String) (own : Bool) (n : ℕ)
    → Ascending db.messages
    → All (λ m. past 0 m ≡ true) db.messages
    → length (
        keep (λ m. past (tail_rowid db jid own (pos (suc n))) m && is_polled jid own m) db.messages)
      ≡ (if ltb n (length (keep (is_polled jid own) db.messages))
          then suc n
          else length (keep (is_polled jid own) db.messages))
unfolding tail_rowid
tail_rowid_exact db jid own n h p =
    rw (keep-both (past (tail_rowid db jid own (pos (suc n)))) (is_polled jid own) db.messages) (
      tail_count n (keep (is_polled jid own) db.messages)
        (keep-Ascending (is_polled jid own) db.messages h)
        (All-keep-All (λ x. past 0 x ≡ true) (is_polled jid own) db.messages p))
