-- ===== src/Gate/Expiry/Exact.antt =====
-- What pruneExpiredLocked of internal/gate/gate.go drops of a store of drafts in expiry order.
use whatsapp_connect_mcp.Prelude.{
  ℕ, ◌+◌, ◌≤◌, String, true, false, Option, none, some, List, [], ◌∷◌, ◌≡◌, refl, arith, inl, inr,
  Option-cases, Bool-cases, eq_iff, contains, leb, length, if◌then◌else◌,
}
use whatsapp_connect_mcp.Prelude.Dict.{Dict, lookup, remove, lookup-remove}
use whatsapp_connect_mcp.Gate.Types.{Delivery, DraftEntry, State, draft_ttl}
use whatsapp_connect_mcp.Gate.Drafts.{
  Book, is_live, prune_from, prune_expired, drop_front, evict_oldest, make_room, store_draft,
}
use whatsapp_connect_mcp.Gate.Bounded.{Listed, Listed-remove}
use whatsapp_connect_mcp.Gate.Expiry.{
  Ascending, Ascending-lower, Ascending-remove, Ascending-insert, Ascending-floor,
  prune_from-Ascending,
}

-- A draft, if it is live.
abbrev pub keep_live : ℕ → Option DraftEntry → Option DraftEntry
keep_live now none = none
keep_live now (some e) = if is_live now e then some e else none

nothing-Listed : (d : Dict DraftEntry) (t : String) → Listed d [] → lookup t d ≡ none
nothing-Listed d t l = elim (Option-cases (lookup t d)) [
  | inl p ↦ p
  | inr (e, p) ↦ absurd (cc (l t e p))
]

pub lookup-prune_from :
    (now : ℕ) (d : Dict DraftEntry) (lo : ℕ) (ts : List String) (hi : ℕ) (t : String)
    → Ascending d lo ts hi
    → Listed d ts
    → lookup t (prune_from now d ts).drafts ≡ keep_live now (lookup t d)
unfolding prune_from
lookup-prune_from now d lo [] hi t h l = rw (nothing-Listed d t l)
lookup-prune_from now d lo (k ∷ ts) hi t h l = elim (Option-cases (lookup k d)) [
  | inl p ↦
      let rest =
        lookup-prune_from now (remove k d) lo ts hi t
          (Ascending-remove d k lo ts hi (rw (p, Ascending) at h)) (Listed-remove d k ts l) in
      rw (p, prune_from) (ground (arith, rest, lookup-remove k t d, eq_iff k t))
  | inr (e, p) ↦
      let h' : (lo ≤ e.expires) × Ascending d e.expires ts hi = rw (p, Ascending) at h in
      let rest =
        lookup-prune_from now (remove k d) lo ts hi t
          (Ascending-remove d k lo ts hi (Ascending-lower d e.expires lo ts hi h'.0 h'.1))
          (Listed-remove d k ts l) in
      elim (Bool-cases (is_live now e)) [
        | inl live ↦ rw (p, prune_from) (rw live (later e p h'.1 live (lookup t d) refl))
        | inr dead ↦
            rw (p, prune_from) (rw dead (ground (arith, rest, lookup-remove k t d, eq_iff k t)))
      ]
]
  where
    later :
        (e : DraftEntry)
        → lookup k d ≡ some e
        → Ascending d e.expires ts hi
        → is_live now e ≡ true
        → (o : Option DraftEntry) → lookup t d ≡ o
        → lookup t d ≡ keep_live now (lookup t d)
    later e p up live none q = rw q
    later e p up live (some x) q =
        rw q (ground (arith, l t x q, eq_iff k t, Ascending-floor d e.expires ts hi up t x))

-- Drafts that were stored no later than `now` expire in the order of the tokens.
abbrev pub IsOrdered : {W L : Type 0} → ℕ → State W L → Type 0
IsOrdered now s = Ascending s.drafts 0 s.order (now + draft_ttl)

drop_front-Ascending :
    (d : Dict DraftEntry) (lo : ℕ) (ts : List String) (hi : ℕ)
    → Ascending d lo ts hi
    → Ascending (drop_front d ts).drafts lo (drop_front d ts).order hi
unfolding drop_front
drop_front-Ascending d lo [] hi h = h
drop_front-Ascending d lo (t ∷ ts) hi h = elim (Option-cases (lookup t d)) [
  | inl p ↦ Ascending-remove d t lo ts hi (rw (p, Ascending) at h)
  | inr (e, p) ↦
      let h' : (lo ≤ e.expires) × Ascending d e.expires ts hi = rw (p, Ascending) at h in
      Ascending-remove d t lo ts hi (Ascending-lower d e.expires lo ts hi h'.0 h'.1)
]

make_room-Ascending :
    (b : Book) (hi : ℕ)
    → Ascending b.drafts 0 b.order hi
    → Ascending (make_room b).drafts 0 (make_room b).order hi
unfolding make_room evict_oldest
make_room-Ascending b hi h = elim (Bool-cases (leb 32 (length b.order))) [
  | inl full ↦ rw full (drop_front-Ascending b.drafts 0 b.order hi h)
  | inr free ↦ rw free h
]

-- Trimming the front takes tokens out of the order and puts none in.
contains-prune_from :
    (now : ℕ) (d : Dict DraftEntry) (ts : List String) (t : String)
    → contains ts t ≡ false
    → contains (prune_from now d ts).order t ≡ false
unfolding prune_from
contains-prune_from now d [] t h = h
contains-prune_from now d (k ∷ ts) t h = ground (arith, contains-prune_from now (remove k d) ts t)

contains-make_room :
    (b : Book) (t : String) → contains b.order t ≡ false → contains (make_room b).order t ≡ false
unfolding make_room evict_oldest
contains-make_room b t h = ground (arith, dropped b.drafts b.order h)
  where
    dropped :
        (d : Dict DraftEntry) (ts : List String)
        → contains ts t ≡ false
        → contains (drop_front d ts).order t ≡ false
    dropped d [] p = refl
    dropped d (k ∷ ts) p = ground arith

pub store_draft-Ascending :
    (now : ℕ) (token : String) (d : Delivery) (preview : String) (b : Book)
    → contains b.order token ≡ false
    → Ascending b.drafts 0 b.order (now + draft_ttl)
    → Ascending
        (store_draft now token d preview b).drafts
        0
        (store_draft now token d preview b).order
        (now + draft_ttl)
unfolding store_draft prune_expired
store_draft-Ascending now token d preview b new h =
    let pruned = prune_from now b.drafts b.order in
    let room = make_room pruned in
    Ascending-insert room.drafts token
      (record { delivery = d; preview = preview; expires = now + draft_ttl }) 0 room.order
      (now + draft_ttl)
      (contains-make_room pruned token (contains-prune_from now b.drafts b.order token new))
      (omega arith)
      (make_room-Ascending pruned (now + draft_ttl)
        (prune_from-Ascending now b.drafts 0 b.order (now + draft_ttl) h))
