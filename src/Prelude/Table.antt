-- ===== src/Prelude/Table.antt =====
-- A SQLite table as the list of its rows in rowid order: the statements the program uses, and
-- their laws.
use mathlib.Core.Path.{◌≡◌, refl}
use mathlib.Core.Logic.{inl, inr}
use mathlib.Core.Bool.{Bool, true, false, not}
use mathlib.Core.Option.{Option, none, some}
use mathlib.Core.List.{List, [], ◌∷◌}
use native.Mathlib.Omega.{arith}
use whatsapp_connect_mcp.Prelude.Tests.{if◌then◌else◌, Bool-cases}
use whatsapp_connect_mcp.Prelude.Lists.{All, keep}

module _ {ℓ} {A : Type ℓ} where
  -- SELECT … WHERE p LIMIT 1
  unfoldable pub first : (A → Bool) → List A → Option A
  first p [] = none
  first p (x ∷ xs) = if p x then some x else first p xs

  -- INSERT … ON CONFLICT (the key that `p` tests) DO UPDATE
  unfoldable pub upsert : (A → Bool) → (A → A) → A → List A → List A
  upsert p change new [] = new ∷ []
  upsert p change new (x ∷ xs) =
      let rest = upsert p change new xs in if p x then change x ∷ xs else x ∷ rest

  -- UPDATE … WHERE p
  unfoldable pub update : (A → Bool) → (A → A) → List A → List A
  update p change [] = []
  update p change (x ∷ xs) = (if p x then change x else x) ∷ update p change xs

  -- DELETE … WHERE p
  unfoldable pub delete : (A → Bool) → List A → List A
  delete p xs = keep (λ x. not (p x)) xs

  -- At most one row passes each of the tests that `key` makes of a row.
  abbrev pub Unique : (A → A → Bool) → List A → Type 0
  Unique same [] = Unit
  Unique same (x ∷ xs) = All (λ y. same x y ≡ false) xs × Unique same xs

  pub first-upsert :
      (p : A → Bool) (change : A → A) (new : A)
      → p new ≡ true
      → ((x : A) → p (change x) ≡ p x)
      → (xs : List A)
      → first p (upsert p change new xs)
        ≡ some (elim (first p xs) [ none ↦ new | some x ↦ change x ])
  unfolding first upsert
  first-upsert p change new pn pc [] = ground arith
  first-upsert p change new pn pc (x ∷ xs) =
      ground (arith, pc x, first-upsert p change new pn pc xs)

  -- A row under another key is not touched.
  pub first-upsert_other :
      (p q : A → Bool) (change : A → A) (new : A)
      → q new ≡ false
      → ((x : A) → q (change x) ≡ q x)
      → ((x : A) → p x ≡ true → q x ≡ false)
      → (xs : List A) → first q (upsert p change new xs) ≡ first q xs
  unfolding first upsert
  first-upsert_other p q change new qn qc apart [] = ground arith
  first-upsert_other p q change new qn qc apart (x ∷ xs) =
      ground (arith, qc x, apart x, first-upsert_other p q change new qn qc apart xs)

  pub first-update :
      (p q : A → Bool) (change : A → A)
      → ((x : A) → q (change x) ≡ q x)
      → (xs : List A)
      → first q (update p change xs)
        ≡ elim (first q xs) [ none ↦ none | some x ↦ some (if p x then change x else x) ]
  unfolding first update
  first-update p q change qc [] = refl
  first-update p q change qc (x ∷ xs) = ground (arith, qc x, first-update p q change qc xs)

  -- The same upsert twice is the upsert once, whatever row the second would have inserted.
  pub upsert_idem :
      (p : A → Bool) (change : A → A) (new new' : A)
      → p new ≡ true
      → change new ≡ new
      → ((x : A) → p x ≡ true → p (change x) ≡ true)
      → ((x : A) → change (change x) ≡ change x)
      → (xs : List A) → upsert p change new' (upsert p change new xs) ≡ upsert p change new xs
  unfolding upsert
  upsert_idem p change new new' pn cn pc cc' [] = ground arith
  upsert_idem p change new new' pn cn pc cc' (x ∷ xs) =
      ground (arith, pc x, cc' x, upsert_idem p change new new' pn cn pc cc' xs)

  pub first_sound : (p : A → Bool) (xs : List A) {x : A} → first p xs ≡ some x → p x ≡ true
  unfolding first
  first_sound p [] h = ground arith
  first_sound p (y ∷ ys) {x} h = ground (arith, first_sound p ys {x = x})

  pub update_idem :
      (p : A → Bool) (change : A → A)
      → ((x : A) → p (change x) ≡ p x)
      → ((x : A) → change (change x) ≡ change x)
      → (xs : List A) → update p change (update p change xs) ≡ update p change xs
  unfolding update
  update_idem p change pc cc' [] = refl
  update_idem p change pc cc' (x ∷ xs) = ground (arith, pc x, cc' x, update_idem p change pc cc' xs)

-- A property of all rows, through each statement.
module _ {ℓ κ} {A : Type ℓ} (P : A → Type κ) where
  pub All-upsert :
      (p : A → Bool) (change : A → A) (new : A)
      → P new
      → ((x : A) → P x → P (change x))
      → (xs : List A) → All P xs
      → All P (upsert p change new xs)
  unfolding upsert
  All-upsert p change new n c [] h = (n, tt)
  All-upsert p change new n c (x ∷ xs) h = elim (Bool-cases (p x)) [
    | inl e ↦ rw e (c x h.0, h.1)
    | inr e ↦ rw e (h.0, All-upsert p change new n c xs h.1)
  ]

  module _ {μ} (Q : A → Type μ) where
    pub All-update :
        (p : A → Bool) (change : A → A)
        → ((x : A) → P x → p x ≡ true → Q (change x))
        → ((x : A) → P x → p x ≡ false → Q x)
        → (xs : List A) → All P xs
        → All Q (update p change xs)
    unfolding update
    All-update p change f g [] h = tt
    All-update p change f g (x ∷ xs) h = elim (Bool-cases (p x)) [
      | inl e ↦ rw e (f x h.0 e, All-update p change f g xs h.1)
      | inr e ↦ rw e (g x h.0 e, All-update p change f g xs h.1)
    ]

    -- Of the rows that pass a test, what the test adds.
    pub All-keep_both :
        (p : A → Bool)
        → ((x : A) → P x → p x ≡ true → Q x)
        → (xs : List A) → All P xs
        → All Q (keep p xs)
    All-keep_both p f [] h = tt
    All-keep_both p f (x ∷ xs) h = elim (Bool-cases (p x)) [
      | inl e ↦ rw e (f x h.0 e, All-keep_both p f xs h.1)
      | inr e ↦ rw e (All-keep_both p f xs h.1)
    ]
