-- ===== src/Target/Unique.antt =====
-- The candidates that Search of internal/target/target.go offers.
use whatsapp_connect_mcp.Prelude.{
  String, Bool, true, false, not, ◌||◌, List, [], ◌∷◌, ◌++◌, ◌==◌, ◌≡◌, arith, eq_iff, All, All-map,
  contains, map, Bool-cases, inl, inr,
}
use whatsapp_connect_mcp.Store.Rows.{ContactRow, ChatRow}
use whatsapp_connect_mcp.Target.{Candidate, unseen, candidates, person, conversation}

-- No two candidates have the same JID.
abbrev pub Distinct : List Candidate → Type 0
Distinct [] = Unit
Distinct (c ∷ cs) = All (λ d. (d.jid == c.jid) ≡ false) cs × Distinct cs

abbrev New : List String → List Candidate → Type 0
New seen cs = All (λ c. contains seen c.jid ≡ false) cs

module _ {A : Type 0} (shows : A → Bool) (candidate : A → Candidate) where
  unseen-New : (seen : List String) (xs : List A) → New seen (unseen shows candidate seen xs)
  unfolding unseen
  unseen-New seen [] = tt
  unseen-New seen (x ∷ xs) = elim (Bool-cases (contains seen (candidate x).jid || not (shows x))) [
    | inl e ↦ rw e (unseen-New seen xs)
    | inr e ↦ rw e (
      ground (arith, e),
      All-map (λ c h. ground (arith, h)) _ (unseen-New ((candidate x).jid ∷ seen) xs),
    )
  ]

  unseen-Distinct : (seen : List String) (xs : List A) → Distinct (unseen shows candidate seen xs)
  unfolding unseen
  unseen-Distinct seen [] = tt
  unseen-Distinct seen (x ∷ xs) =
      elim (Bool-cases (contains seen (candidate x).jid || not (shows x))) [
        | inl e ↦ rw e (unseen-Distinct seen xs)
        | inr e ↦ rw e (
          All-map
              (λ c h.
                ground (arith, h, eq_iff c.jid (candidate x).jid, eq_iff (candidate x).jid c.jid))
              _ (unseen-New ((candidate x).jid ∷ seen) xs),
          unseen-Distinct ((candidate x).jid ∷ seen) xs,
        )
      ]

append-Distinct :
    (cs ds : List Candidate)
    → Distinct cs
    → Distinct ds
    → New (map (λ c. c.jid) cs) ds
    → Distinct (cs ++ ds)
append-Distinct [] ds h k new = k
append-Distinct (c ∷ cs) ds h k new = (
  All-append cs ds h.0
      (All-map (λ d p. ground (arith, p, eq_iff c.jid d.jid, eq_iff d.jid c.jid)) ds new),
  append-Distinct cs ds h.1 k (All-map (λ d p. ground (arith, p)) ds new),
)
  where
    All-append :
        (xs ys : List Candidate)
        → All (λ d. (d.jid == c.jid) ≡ false) xs
        → All (λ d. (d.jid == c.jid) ≡ false) ys
        → All (λ d. (d.jid == c.jid) ≡ false) (xs ++ ys)
    All-append [] ys p q = q
    All-append (x ∷ xs) ys p q = (p.0, All-append xs ys p.1 q)

-- Whatever rows the two queries answer, the candidates have pairwise different JIDs: a person who
-- is both a contact and a chat is offered once.
pub candidates-Distinct :
    (shows : ChatRow → Bool) (contacts : List ContactRow) (chats : List ChatRow)
    → Distinct (candidates shows contacts chats)
unfolding candidates
candidates-Distinct shows contacts chats =
    let people = unseen (λ c. true) person [] contacts in
    append-Distinct people (unseen shows conversation (map (λ c. c.jid) people) chats)
      (unseen-Distinct (λ c. true) person [] contacts)
      (unseen-Distinct shows conversation (map (λ c. c.jid) people) chats)
      (unseen-New shows conversation (map (λ c. c.jid) people) chats)
