-- ===== src/Tools/Groups/Exact.antt =====
-- groupMessageIDsBySender of internal/mcpserv/send_tools.go: what a run of its loop answers.
use mathlib.Core.List.{append_assoc, append-nil}
use whatsapp_connect_mcp.Prelude.{
  ℕ, String, Bool, true, false, none, some, List, [], ◌∷◌, ◌++◌, ◌==◌, ◌≡◌, refl, if◌then◌else◌,
  Result, ok, err, arith, eq_iff, length, keep, contains, Result-cases, Option-cases, inl, inr,
  subst, sym, ◌⊎◌, ◌∙◌,
}
use whatsapp_connect_mcp.Prelude.Dict.{Dict, lookup, insert, lookup-insert}
use whatsapp_connect_mcp.Tools.Groups.{
  SenderGroup, add_at, group_loop, group_message_ids_by_sender, is_from, ids_of, senders, Distinct,
}
use whatsapp_connect_mcp.Tools.Groups.Positions.{
  position, position-none, position-append, position-add_at, senders-add_at, senders-append,
  Distinct-append, ids_of-absent, ids_of-append, ids_of-add_at,
}

abbrev Matches : Dict ℕ → List SenderGroup → Type 0
Matches index gs = (x : String) → lookup x index ≡ position x gs

-- What a run of the loop from these groups answers.
record IsGrouping (from : String → String → Bool) (before : List SenderGroup) (ids : List String)
    (out : List SenderGroup) : Type 0 where
  distinct : Distinct (senders out)
  exact : (x : String) → ids_of x out ≡ ids_of x before ++ keep (from x) ids

extend :
    (id : String) (b : Bool) (a a' k : List String)
    → a' ≡ (if b then a ++ (id ∷ []) else a)
    → a' ++ k ≡ a ++ (if b then id ∷ k else k)
extend id true a a' k h = rw h (append_assoc a (id ∷ []) k)
extend id false a a' k h = rw h refl

module _ {E : Type 0} (author : String → Result E String) where
  is_from_lem : {id x : String} → author id ≡ ok x → (y : String) → is_from author y id ≡ (x == y)
  is_from_lem h y = ground (arith, h)

  group_loop-IsGrouping :
      (index : Dict ℕ) (gs : List SenderGroup) (ids : List String) {out : List SenderGroup}
      → Matches index gs
      → Distinct (senders gs)
      → group_loop author index gs ids ≡ ok out
      → IsGrouping (is_from author) gs ids out
  unfolding group_loop
  group_loop-IsGrouping index gs [] {out} m d h =
      let e : gs ≡ out = ground (arith, h) in
      record { distinct = rw (← e) d; exact = λ x. rw (← e) (sym (append-nil (ids_of x gs))) }
  group_loop-IsGrouping index gs (id ∷ ids) {out} m d h = elim (Result-cases (author id)) [
    | inl (e, a) ↦ ground (arith, h, a)
    | inr (x, a) ↦ elim (Option-cases (lookup x index)) [
      | inl e ↦
          let g : SenderGroup = record { sender = x; ids = id ∷ [] } in
          let absent : position x gs ≡ none = sym (m x) ∙ e in
          let next =
            group_loop-IsGrouping (insert x (length gs) index) (gs ++ (g ∷ [])) ids {out = out}
              (λ y.
                rw (lookup-insert x y (length gs) index, position-append y gs g absent, m y) refl)
              (rw (senders-append gs g)
                (Distinct-append (senders gs) x d (position-none x gs absent)))
              (ground (arith, h, a, e)) in
          record {
            distinct = next.distinct;
            exact = λ y.
                next.exact y
                ∙ rw (is_from_lem a y) (
                    extend id (x == y) (ids_of y gs) _ (keep (is_from author y) ids) (
                      ids_of-append y gs g absent
                      ∙ ground (arith, eq_iff x y, ids_of-absent x gs absent)));
          }
      | inr (i, e) ↦
          let there : position x gs ≡ some i = sym (m x) ∙ e in
          let next =
            group_loop-IsGrouping index (add_at i id gs) ids {out = out}
              (λ y. m y ∙ sym (position-add_at y i id gs)) (rw (senders-add_at i id gs) d)
              (ground (arith, h, a, e)) in
          record {
            distinct = next.distinct;
            exact = λ y.
                next.exact y
                ∙ rw (is_from_lem a y) (
                    extend id (x == y) (ids_of y gs) _ (keep (is_from author y) ids)
                      (ids_of-add_at x y i id gs there));
          }
    ]
  ]

  abbrev Answers : Result E (List SenderGroup) → List String → Type 0
  Answers r ids =
      ((out : List SenderGroup) × (r ≡ ok out))
      ⊎ ((id : String) × (e : E) × (contains ids id ≡ true) × (author id ≡ err e) × (r ≡ err e))

  onward :
      (r : Result E (List SenderGroup)) (id : String) (ids : List String)
      → Answers r ids
      → Answers r (id ∷ ids)
  onward r id ids (inl given) = inl given
  onward r id ids (inr (failing, e, member, a, h)) = inr (failing, e, ground (arith, member), a, h)

  group_loop-Answers :
      (index : Dict ℕ) (gs : List SenderGroup) (ids : List String)
      → Answers (group_loop author index gs ids) ids
  unfolding group_loop
  group_loop-Answers index gs [] = inl (gs, refl)
  group_loop-Answers index gs (id ∷ ids) = elim (Result-cases (author id)) [
    | inl (e, a) ↦ inr (id, e, ground (arith, eq_iff id id), a, ground (arith, a))
    | inr (x, a) ↦ elim (Option-cases (lookup x index)) [
      | inl n ↦
          let new : List SenderGroup = gs ++ (record { sender = x; ids = id ∷ [] } ∷ []) in
          let next = group_loop author (insert x (length gs) index) new ids in
          let same : next ≡ group_loop author index gs (id ∷ ids) = ground (arith, a, n) in
          subst (λ r. Answers r (id ∷ ids)) same
            (onward next id ids (group_loop-Answers (insert x (length gs) index) new ids))
      | inr (i, n) ↦
          let next = group_loop author index (add_at i id gs) ids in
          let same : next ≡ group_loop author index gs (id ∷ ids) = ground (arith, a, n) in
          subst (λ r. Answers r (id ∷ ids)) same
            (onward next id ids (group_loop-Answers index (add_at i id gs) ids))
    ]
  ]

  -- Each message of the call is in the group of its sender and in no other, in the order of the
  -- call, and no two groups have the same sender. Only where the store cannot say who wrote one of
  -- the messages does the grouping fail, with the answer of the store.
  pub groups_exact :
      (ids : List String)
      → ((out : List SenderGroup) × (group_message_ids_by_sender author ids ≡ ok out)
          × Distinct (senders out)
          × ((x : String) → ids_of x out ≡ keep (is_from author x) ids))
        ⊎ ((id : String) × (e : E) × (contains ids id ≡ true)
            × (author id ≡ err e)
            × (group_message_ids_by_sender author ids ≡ err e))
  unfolding group_message_ids_by_sender ids_of lookup position
  groups_exact ids = elim (group_loop-Answers [] [] ids) [
    | inr failed ↦ inr failed
    | inl (out, h) ↦
        let v = group_loop-IsGrouping [] [] ids {out = out} (λ x. refl) tt h in
        inl (out, h, v.distinct, v.exact)
  ]
