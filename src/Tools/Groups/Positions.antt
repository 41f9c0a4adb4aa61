-- ===== src/Tools/Groups/Positions.antt =====
-- groupMessageIDsBySender of internal/mcpserv/send_tools.go: the groups under the two moves of its
-- loop, a new group at the end and one more message in an old one.
use whatsapp_connect_mcp.Prelude.{
  ℕ, zero, suc, String, false, Option, none, some, List, [], ◌∷◌, ◌++◌, ◌==◌, ◌≡◌, refl,
  if◌then◌else◌, arith, eq_iff, length, contains, Option-cases, inl, inr, ap, contains-append,
}
use whatsapp_connect_mcp.Tools.Groups.{SenderGroup, add_at, ids_of, senders, Distinct, after_first}

unfoldable pub position : String → List SenderGroup → Option ℕ
position x [] = none
position x (g ∷ gs) = if g.sender == x then some 0 else after_first (position x gs)

pub position-none :
    (x : String) (gs : List SenderGroup) → position x gs ≡ none → contains (senders gs) x ≡ false
unfolding position
position-none x [] h = refl
position-none x (g ∷ gs) h = elim (Option-cases (position x gs)) [
  | inl e ↦ ground (arith, h, e, position-none x gs)
  | inr (i, e) ↦ ground (arith, h, e)
]

pub position-append :
    (x : String) (gs : List SenderGroup) (g : SenderGroup)
    → position g.sender gs ≡ none
    → position x (gs ++ (g ∷ [])) ≡ (if g.sender == x then some (length gs) else position x gs)
unfolding position
position-append x [] g h = ground arith
position-append x (k ∷ gs) g h = elim (Option-cases (position g.sender gs)) [
  | inl e ↦ ground (
    arith,
    h,
    e,
    eq_iff k.sender x,
    eq_iff g.sender x,
    eq_iff k.sender g.sender,
    position-append x gs g e,
  )
  | inr (i, e) ↦ ground (arith, h, e)
]

pub position-add_at :
    (x : String) (i : ℕ) (id : String) (gs : List SenderGroup)
    → position x (add_at i id gs) ≡ position x gs
unfolding position add_at
position-add_at x i id [] = refl
position-add_at x zero id (g ∷ gs) = refl
position-add_at x (suc i) id (g ∷ gs) = rw (position-add_at x i id gs) refl

pub senders-add_at :
    (i : ℕ) (id : String) (gs : List SenderGroup) → senders (add_at i id gs) ≡ senders gs
unfolding add_at
senders-add_at i id [] = refl
senders-add_at zero id (g ∷ gs) = refl
senders-add_at (suc i) id (g ∷ gs) = rw (senders-add_at i id gs) refl

pub senders-append :
    (gs : List SenderGroup) (g : SenderGroup)
    → senders (gs ++ (g ∷ [])) ≡ senders gs ++ (g.sender ∷ [])
senders-append [] g = refl
senders-append (k ∷ gs) g = ap (λ xs. k.sender ∷ xs) (senders-append gs g)

pub Distinct-append :
    (xs : List String) (x : String)
    → Distinct xs
    → contains xs x ≡ false
    → Distinct (xs ++ (x ∷ []))
Distinct-append [] x d h = (refl, tt)
Distinct-append (y ∷ ys) x d h = (
  ground (arith, contains-append ys (x ∷ []) y, d, h, eq_iff x y, eq_iff y x),
  Distinct-append ys x d.1 (ground (arith, h)),
)

pub ids_of-absent : (x : String) (gs : List SenderGroup) → position x gs ≡ none → ids_of x gs ≡ []
unfolding ids_of position
ids_of-absent x [] h = refl
ids_of-absent x (g ∷ gs) h = elim (Option-cases (position x gs)) [
  | inl e ↦ ground (arith, h, e, ids_of-absent x gs e)
  | inr (i, e) ↦ ground (arith, h, e)
]

pub ids_of-append :
    (x : String) (gs : List SenderGroup) (g : SenderGroup)
    → position g.sender gs ≡ none
    → ids_of x (gs ++ (g ∷ [])) ≡ (if g.sender == x then g.ids else ids_of x gs)
unfolding ids_of position
ids_of-append x [] g h = refl
ids_of-append x (k ∷ gs) g h = elim (Option-cases (position g.sender gs)) [
  | inl e ↦ ground (
    arith,
    h,
    e,
    eq_iff k.sender x,
    eq_iff g.sender x,
    eq_iff k.sender g.sender,
    ids_of-append x gs g e,
  )
  | inr (i, e) ↦ ground (arith, h, e)
]

pub ids_of-add_at :
    (x y : String) (i : ℕ) (id : String) (gs : List SenderGroup)
    → position x gs ≡ some i
    → ids_of y (add_at i id gs) ≡ (if x == y then ids_of y gs ++ (id ∷ []) else ids_of y gs)
unfolding ids_of add_at position
ids_of-add_at x y i id [] h = ground arith
ids_of-add_at x y zero id (g ∷ gs) h = elim (Option-cases (position x gs)) [
  | inl e ↦ ground (arith, h, e, eq_iff x y, eq_iff g.sender x, eq_iff g.sender y)
  | inr (k, e) ↦ ground (arith, h, e, eq_iff x y, eq_iff g.sender x, eq_iff g.sender y)
]
ids_of-add_at x y (suc i) id (g ∷ gs) h = elim (Option-cases (position x gs)) [
  | inl e ↦ ground (arith, h, e)
  | inr (k, e) ↦
      let e' : g.sender == x ≡ false = ground (arith, h, e) in
      let e'' : position x gs ≡ some i = ground (arith, h, e) in
      ground
        (arith, e', eq_iff x y, eq_iff g.sender x, eq_iff g.sender y, ids_of-add_at x y i id gs e'')
]
