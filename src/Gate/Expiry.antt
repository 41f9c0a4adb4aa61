-- ===== src/Gate/Expiry.antt =====
-- Expiry in internal/gate/gate.go: the order of the tokens against the times at which they expire.
pub mod Exact
pub mod Histories
use whatsapp_connect_mcp.Prelude.{
  ℕ, ◌+◌, ◌≤◌, ◌<◌, String, Bool, true, false, Option, none, some, List, [], ◌∷◌, ◌++◌, ◌≡◌, refl,
  arith, inl, inr, Option-cases, Bool-cases, Result, ok, err, Result-cases, All, ◌==◌, eq_iff,
  contains, contains-append, leb, length, ◌||◌,
}
use whatsapp_connect_mcp.Prelude.Dict.{Dict, lookup, remove, insert, lookup-remove, lookup-insert}
use whatsapp_connect_mcp.Gate.Types.{
  Delivery, DraftEntry, Deliverer, Limiter, State, draft_ttl, deep_equal,
}
use whatsapp_connect_mcp.Gate.Render.{Codec, new_draft_token}
use whatsapp_connect_mcp.Gate.Drafts.{
  Book, DraftInfo, is_live, prune_from, prune_expired, drop_front, evict_oldest, make_room,
  store_draft, list_infos,
}
use whatsapp_connect_mcp.Gate.Ops.{
  Moment, book, claim, commit, approve, discard, list_drafts, create_draft, submit, deliver_now,
  send, new_state,
}
use whatsapp_connect_mcp.Gate.Branches.{submit_branches, scheduled_branches}
use whatsapp_connect_mcp.Gate.Calls.{
  Call, submits, approves, discards, lists, fires, step, run, Forward,
}

-- The drafts of a list of tokens expire in its order, none before `lo` and none after `hi`.
abbrev Ascending : Dict DraftEntry → ℕ → List String → ℕ → Type 0
Ascending d lo [] hi = lo ≤ hi
Ascending d lo (t ∷ ts) hi = elim (lookup t d) [
  | none ↦ Ascending d lo ts hi
  | some e ↦ (lo ≤ e.expires) × Ascending d e.expires ts hi
]

Ascending-lower :
    (d : Dict DraftEntry) (lo lo' : ℕ) (ts : List String) (hi : ℕ)
    → lo' ≤ lo
    → Ascending d lo ts hi
    → Ascending d lo' ts hi
Ascending-lower d lo lo' [] hi le h = omega arith
Ascending-lower d lo lo' (t ∷ ts) hi le h = elim (Option-cases (lookup t d)) [
  | inl p ↦ rw (p, Ascending) (Ascending-lower d lo lo' ts hi le (rw (p, Ascending) at h))
  | inr (e, p) ↦
      let h' : (lo ≤ e.expires) × Ascending d e.expires ts hi = rw (p, Ascending) at h in
      rw (p, Ascending) (omega (arith, h'), h'.1)
]

Ascending-raise :
    (d : Dict DraftEntry) (lo : ℕ) (ts : List String) (hi hi' : ℕ)
    → hi ≤ hi'
    → Ascending d lo ts hi
    → Ascending d lo ts hi'
Ascending-raise d lo [] hi hi' le h = omega arith
Ascending-raise d lo (t ∷ ts) hi hi' le h = elim (Option-cases (lookup t d)) [
  | inl p ↦ rw (p, Ascending) (Ascending-raise d lo ts hi hi' le (rw (p, Ascending) at h))
  | inr (e, p) ↦
      let h' : (lo ≤ e.expires) × Ascending d e.expires ts hi = rw (p, Ascending) at h in
      rw (p, Ascending) (h'.0, Ascending-raise d e.expires ts hi hi' le h'.1)
]

Ascending-remove :
    (d : Dict DraftEntry) (k : String) (lo : ℕ) (ts : List String) (hi : ℕ)
    → Ascending d lo ts hi
    → Ascending (remove k d) lo ts hi
Ascending-remove d k lo [] hi h = h
Ascending-remove d k lo (t ∷ ts) hi h = elim (Option-cases (lookup t d)) [
  | inl p ↦
      let gone : lookup t (remove k d) ≡ none = ground (arith, lookup-remove k t d) in
      rw (gone, Ascending) (Ascending-remove d k lo ts hi (rw (p, Ascending) at h))
  | inr (e, p) ↦
      let h' : (lo ≤ e.expires) × Ascending d e.expires ts hi = rw (p, Ascending) at h in
      elim (Bool-cases (k == t)) [
        | inl same ↦
            let gone : lookup t (remove k d) ≡ none = ground (arith, lookup-remove k t d) in
            rw (gone, Ascending)
              (Ascending-remove d k lo ts hi (Ascending-lower d e.expires lo ts hi h'.0 h'.1))
        | inr other ↦
            let still : lookup t (remove k d) ≡ some e = ground (arith, lookup-remove k t d) in
            rw (still, Ascending) (h'.0, Ascending-remove d k e.expires ts hi h'.1)
      ]
]

Ascending-insert :
    (d : Dict DraftEntry) (k : String) (x : DraftEntry) (lo : ℕ) (ts : List String) (hi : ℕ)
    → contains ts k ≡ false
    → hi ≤ x.expires
    → Ascending d lo ts hi
    → Ascending (insert k x d) lo (ts ++ k ∷ []) x.expires
Ascending-insert d k x lo [] hi new le h =
    let there : lookup k (insert k x d) ≡ some x =
      ground (arith, lookup-insert k k x d, eq_iff k k) in
    rw (there, Ascending) (omega arith, omega arith)
Ascending-insert d k x lo (t ∷ ts) hi new le h =
    let same : lookup t (insert k x d) ≡ lookup t d =
      ground (arith, lookup-insert k t x d, eq_iff k t, eq_iff t k) in
    let new' : contains ts k ≡ false = ground arith in
    elim (Option-cases (lookup t d)) [
      | inl p ↦
          rw (same, p, Ascending) (Ascending-insert d k x lo ts hi new' le (rw (p, Ascending) at h))
      | inr (e, p) ↦
          let h' : (lo ≤ e.expires) × Ascending d e.expires ts hi = rw (p, Ascending) at h in
          rw (same, p, Ascending) (h'.0, Ascending-insert d k x e.expires ts hi new' le h'.1)
    ]

-- No draft of the list expires before `lo`.
Ascending-floor :
    (d : Dict DraftEntry) (lo : ℕ) (ts : List String) (hi : ℕ)
    → Ascending d lo ts hi
    → (t : String) (e : DraftEntry) → contains ts t ≡ true
    → lookup t d ≡ some e
    → lo ≤ e.expires
Ascending-floor d lo [] hi h t e c p = ground arith
Ascending-floor d lo (k ∷ ts) hi h t e c p = elim (Option-cases (lookup k d)) [
  | inl q ↦
      let h' : Ascending d lo ts hi = rw (q, Ascending) at h in
      ground (arith, eq_iff k t, Ascending-floor d lo ts hi h' t e)
  | inr (x, q) ↦
      let h' : (lo ≤ x.expires) × Ascending d x.expires ts hi = rw (q, Ascending) at h in
      ground (arith, eq_iff k t, h'.0, Ascending-floor d x.expires ts hi h'.1 t e)
]

prune_from-Ascending :
    (now : ℕ) (d : Dict DraftEntry) (lo : ℕ) (ts : List String) (hi : ℕ)
    → Ascending d lo ts hi
    → Ascending (prune_from now d ts).drafts lo (prune_from now d ts).order hi
unfolding prune_from
prune_from-Ascending now d lo [] hi h = h
prune_from-Ascending now d lo (t ∷ ts) hi h = elim (Option-cases (lookup t d)) [
  | inl p ↦
      rw (p, prune_from)
        (prune_from-Ascending now (remove t d) lo ts hi
          (Ascending-remove d t lo ts hi (rw (p, Ascending) at h)))
  | inr (e, p) ↦
      let h' : (lo ≤ e.expires) × Ascending d e.expires ts hi = rw (p, Ascending) at h in
      let rest =
        prune_from-Ascending now (remove t d) lo ts hi
          (Ascending-remove d t lo ts hi (Ascending-lower d e.expires lo ts hi h'.0 h'.1)) in
      elim (Bool-cases (is_live now e)) [
        | inl live ↦ rw (p, prune_from) (rw live (rw (p, Ascending) h'))
        | inr dead ↦ rw (p, prune_from) (rw dead rest)
      ]
]
