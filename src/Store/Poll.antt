-- ===== src/Store/Poll.antt =====
-- internal/store/query.go: the rowid cursor of poll_new_messages.
pub mod Order
pub mod Tail
use whatsapp_connect_mcp.Prelude.{
  ℕ, zero, suc, ◌+◌, ◌-◌, ◌≤◌, String, Bool, true, false, not, ◌&&◌, ◌||◌, Option, none, some, List,
  [], ◌∷◌, ◌++◌, ◌==◌, ◌≡◌, refl, keep, take, length, map, if◌then◌else◌, ltb, arith, All, All-map,
  Bool-cases, inl, inr, ap, sym, subst, ◌∙◌, All-take, All-keep,
}
use whatsapp_connect_mcp.Prelude.Int.{ℤ, pos, negsuc, ltb_ℤ}
use whatsapp_connect_mcp.Store.Types.{Message, Stored, Db}
use whatsapp_connect_mcp.Store.Rows.{MessageRow, clamp_limit}
use whatsapp_connect_mcp.Store.Query.{message_row, reverse, chat_or_all}

abbrev pub is_polled : String → Bool → Stored → Bool
is_polled jid own m = chat_or_all jid m.chat_jid && (own || not m.from_me)

abbrev pub past : ℕ → Stored → Bool
past c m = ltb c m.rowid

-- The rows of one poll, before they are decorated.
abbrev pub page : String → Bool → ℕ → ℕ → List Stored → List Stored
page jid own cursor n ms = take n (keep (λ m. past cursor m && is_polled jid own m) ms)

-- The rowid of the last row, or `cursor`.
abbrev pub last_rowid : ℕ → List Stored → ℕ
last_rowid cursor [] = cursor
last_rowid cursor (m ∷ ms) = last_rowid m.rowid ms

-- MessagesAfterRowID, for a cursor that is not negative, with the next cursor.
unfoldable pub messages_after_rowid : Db → String → ℕ → Bool → ℤ → List MessageRow × ℕ
messages_after_rowid db jid cursor own limit =
    let rows = page jid own cursor (clamp_limit limit) db.messages in
    (map (message_row db) rows, last_rowid cursor rows)

-- LatestRowID
unfoldable pub latest_rowid : Db → ℕ
latest_rowid db = last_rowid 0 db.messages

abbrev pub nth : ℕ → List Stored → Option Stored
nth n [] = none
nth zero (m ∷ ms) = some m
nth (suc n) (m ∷ ms) = nth n ms

abbrev pub before_row : Option Stored → ℕ
before_row none = 0
before_row (some m) = m.rowid - 1

-- TailRowID
unfoldable pub tail_rowid : Db → String → Bool → ℤ → ℕ
tail_rowid db jid own (negsuc n) = 0
tail_rowid db jid own (pos zero) = 0
tail_rowid db jid own (pos (suc n)) =
    before_row (nth n (reverse (keep (is_polled jid own) db.messages)))

-- The rows stand in the order of their rowids, which differ.
abbrev pub Ascending : List Stored → Type 0
Ascending [] = Unit
Ascending (m ∷ ms) = All (λ x. ltb m.rowid x.rowid ≡ true) ms × Ascending ms

map-append : {A B : Type 0} (f : A → B) (xs ys : List A) → map f (xs ++ ys) ≡ map f xs ++ map f ys
map-append f [] ys = refl
map-append f (x ∷ xs) ys = ap (λ zs. f x ∷ zs) (map-append f xs ys)

-- Every row is past the cursor.
pub keep-past :
    (c : ℕ) (q : Stored → Bool) (ms : List Stored)
    → All (λ x. ltb c x.rowid ≡ true) ms
    → keep (λ x. past c x && q x) ms ≡ keep q ms
keep-past c q [] h = refl
keep-past c q (m ∷ ms) h = ground (arith, h.0, keep-past c q ms h.1)

abbrev skip : ℕ → List Stored → List Stored
skip zero xs = xs
skip (suc n) [] = []
skip (suc n) (x ∷ xs) = skip n xs

take-skip : (n : ℕ) (xs : List Stored) → take n xs ++ skip n xs ≡ xs
take-skip zero xs = refl
take-skip (suc n) [] = refl
take-skip (suc n) (x ∷ xs) = ap (λ ys. x ∷ ys) (take-skip n xs)

last_rowid_floor :
    (c d : ℕ) (xs : List Stored) → c ≤ d → All (λ x. ltb c x.rowid ≡ true) xs → c ≤ last_rowid d xs
last_rowid_floor c d [] le h = le
last_rowid_floor c d (x ∷ xs) le h = last_rowid_floor c x.rowid xs (ground (arith, h.0)) h.1

page_floor :
    (q : Stored → Bool) (n c : ℕ) (ms : List Stored)
    → c ≤ last_rowid c (take n (keep (λ m. past c m && q m) ms))
page_floor q n c ms = last_rowid_floor c c (take n (keep (λ m. past c m && q m) ms)) (omega arith) (
    All-take (λ x. ltb c x.rowid ≡ true) n (keep (λ m. past c m && q m) ms)
      (All-map (λ x h. ground (arith, h)) (keep (λ m. past c m && q m) ms)
        (All-keep (λ m. past c m && q m) ms)))

drop_row :
    (q : Stored → Bool) (l : ℕ) (m : Stored) (ms : List Stored)
    → (past l m && q m) ≡ false
    → keep (λ x. past l x && q x) (m ∷ ms) ≡ keep (λ x. past l x && q x) ms
drop_row q l m ms h = rw h refl

taken_row :
    (q : Stored → Bool) (c : ℕ) (m : Stored) (ms : List Stored)
    → (past c m && q m) ≡ true
    → All (λ x. ltb m.rowid x.rowid ≡ true) ms
    → keep (λ x. past c x && q x) (m ∷ ms) ≡ m ∷ keep (λ x. past m.rowid x && q x) ms
taken_row q c m ms e h =
    rw (e, keep-past c q ms (All-map (λ x p. ground (arith, p, e)) ms h), keep-past m.rowid q ms h)
      refl

-- What is past the cursor after a page is what the page left.
rest_of_page :
    (q : Stored → Bool) (n c : ℕ) (ms : List Stored)
    → Ascending ms
    → keep (λ x. past (last_rowid c (take n (keep (λ m. past c m && q m) ms))) x && q x) ms
      ≡ skip n (keep (λ m. past c m && q m) ms)
rest_of_page q zero c ms h = refl
rest_of_page q (suc n) c [] h = refl
rest_of_page q (suc n) c (m ∷ ms) h = elim (Bool-cases (past c m && q m)) [
  | inl e ↦
      subst
        (λ xs.
          keep (λ x. past (last_rowid c (take (suc n) xs)) x && q x) (m ∷ ms) ≡ skip (suc n) xs)
        (sym (taken_row q c m ms e h.0))
        (drop_row q (last_rowid m.rowid (take n (keep (λ x. past m.rowid x && q x) ms))) m ms
            (ground (arith, page_floor q n m.rowid ms))
          ∙ rest_of_page q n m.rowid ms h.1)
  | inr e ↦
      subst
        (λ xs.
          keep (λ x. past (last_rowid c (take (suc n) xs)) x && q x) (m ∷ ms) ≡ skip (suc n) xs)
        (sym (drop_row q c m ms e))
        (drop_row q (last_rowid c (take (suc n) (keep (λ x. past c x && q x) ms))) m ms
            (ground (arith, e, page_floor q (suc n) c ms))
          ∙ rest_of_page q (suc n) c ms h.1)
]

-- The rows past a cursor are a page of them, followed by the rows past the cursor that the page
-- returns: where the table is in rowid order, polling neither skips nor repeats a message.
pub poll_partition :
    (db : Db) (jid : String) (cursor : ℕ) (own : Bool) (limit : ℤ)
    → Ascending db.messages
    → map (message_row db) (keep (λ m. past cursor m && is_polled jid own m) db.messages)
      ≡ (messages_after_rowid db jid cursor own limit).0
        ++ map (message_row db) (
            keep
              (λ m. past (messages_after_rowid db jid cursor own limit).1 m && is_polled jid own m)
              db.messages)
unfolding messages_after_rowid
poll_partition db jid cursor own limit h =
    rw (rest_of_page (is_polled jid own) (clamp_limit limit) cursor db.messages h) (
      sym (
        sym (
          map-append (message_row db)
            (take (clamp_limit limit)
              (keep (λ m. past cursor m && is_polled jid own m) db.messages))
            (skip (clamp_limit limit)
              (keep (λ m. past cursor m && is_polled jid own m) db.messages)))
        ∙ ap (map (message_row db)) (
            take-skip (clamp_limit limit)
              (keep (λ m. past cursor m && is_polled jid own m) db.messages))))
