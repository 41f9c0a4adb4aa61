-- ===== src/Gate/Bounded.antt =====
-- The size of the draft store of internal/gate/gate.go, call by call: its order against draftCap,
-- and its map against its order.
use whatsapp_connect_mcp.Prelude.{
  ℕ, ◌+◌, ◌≤◌, String, Bool, true, some, List, [], ◌∷◌, ◌≡◌, refl, arith, length, contains,
  contains-append, length-append, Result-cases, inl, inr, eq_iff,
}
use whatsapp_connect_mcp.Prelude.Dict.{Dict, lookup, remove, lookup-remove, lookup-insert}
use whatsapp_connect_mcp.Gate.Types.{
  Delivery, DraftEntry, deep_equal, Deliverer, Limiter, State, draft_cap, draft_ttl,
}
use whatsapp_connect_mcp.Gate.Render.{Codec, new_draft_token}
use whatsapp_connect_mcp.Gate.Drafts.{
  Book, prune_from, prune_expired, drop_front, evict_oldest, make_room, store_draft,
}
use whatsapp_connect_mcp.Gate.Ops.{
  Moment, book, new_state, claim, commit, approve, discard, list_drafts, create_draft, submit,
  deliver_now, send,
}
use whatsapp_connect_mcp.Gate.Branches.{submit_branches, scheduled_branches}
use whatsapp_connect_mcp.Gate.Calls.{Call, submits, approves, discards, lists, fires, step, run}

pub record IsBounded (b : Book) : Type 0 where
  pub fits : length b.order ≤ draft_cap
  pub listed :
      (t : String) (e : DraftEntry) → lookup t b.drafts ≡ some e → contains b.order t ≡ true

abbrev pub Listed : Dict DraftEntry → List String → Type 0
Listed d ts = (t : String) (e : DraftEntry) → lookup t d ≡ some e → contains ts t ≡ true

pub Listed-remove :
    (d : Dict DraftEntry) (k : String) (ts : List String)
    → Listed d (k ∷ ts)
    → Listed (remove k d) ts
Listed-remove d k ts h t e p = ground (arith, lookup-remove k t d, h t e, eq_iff k t)

Listed-remove_any :
    (d : Dict DraftEntry) (k : String) (ts : List String) → Listed d ts → Listed (remove k d) ts
Listed-remove_any d k ts h t e p = ground (arith, lookup-remove k t d, h t e)

prune_from-Listed :
    (now : ℕ) (d : Dict DraftEntry) (ts : List String)
    → Listed d ts
    → Listed (prune_from now d ts).drafts (prune_from now d ts).order
unfolding prune_from
prune_from-Listed now d [] h t e p = h t e p
prune_from-Listed now d (k ∷ ts) h t e p =
    ground (arith, h t e, prune_from-Listed now (remove k d) ts (Listed-remove d k ts h) t e)

length-prune_from :
    (now : ℕ) (d : Dict DraftEntry) (ts : List String)
    → length (prune_from now d ts).order ≤ length ts
unfolding prune_from
length-prune_from now d [] = omega arith
length-prune_from now d (k ∷ ts) = ground (arith, length-prune_from now (remove k d) ts)

prune_expired-IsBounded : (now : ℕ) (b : Book) → IsBounded b → IsBounded (prune_expired now b)
unfolding prune_expired
prune_expired-IsBounded now b v = record {
  fits = omega (arith, v.fits, length-prune_from now b.drafts b.order);
  listed = prune_from-Listed now b.drafts b.order v.listed;
}

evict_oldest-Listed :
    (b : Book) → IsBounded b → Listed (evict_oldest b).drafts (evict_oldest b).order
unfolding evict_oldest
evict_oldest-Listed b v = go b.drafts b.order v.listed
  where
    go :
        (d : Dict DraftEntry) (ts : List String)
        → Listed d ts
        → Listed (drop_front d ts).drafts (drop_front d ts).order
    go d [] h = h
    go d (k ∷ ts) h = Listed-remove d k ts h

length-evict_oldest :
    (b : Book) → length b.order ≤ draft_cap → length (evict_oldest b).order + 1 ≤ draft_cap
unfolding evict_oldest
length-evict_oldest b h = go b.drafts b.order h
  where
    go :
        (d : Dict DraftEntry) (ts : List String)
        → length ts ≤ draft_cap
        → length (drop_front d ts).order + 1 ≤ draft_cap
    go d [] h = omega arith
    go d (k ∷ ts) h = omega arith

make_room-Listed : (b : Book) → IsBounded b → Listed (make_room b).drafts (make_room b).order
unfolding make_room
make_room-Listed b v t e p = ground (arith, v.listed t e, evict_oldest-Listed b v t e)

length-make_room : (b : Book) → IsBounded b → length (make_room b).order + 1 ≤ draft_cap
unfolding make_room
length-make_room b v = ground (arith, v, length-evict_oldest b v.fits)

store_draft-IsBounded :
    (now : ℕ) (token : String) (d : Delivery) (preview : String) (b : Book)
    → IsBounded b
    → IsBounded (store_draft now token d preview b)
unfolding store_draft
store_draft-IsBounded now token d preview b v =
    let room = make_room (prune_expired now b) in
    let v' = prune_expired-IsBounded now b v in
    record {
      fits = omega (
        arith,
        length-append {0} room.order (token ∷ []),
        length-make_room (prune_expired now b) v',
      );
      listed = λ t e p. ground (
        arith,
        lookup-insert token t
            (record { delivery = d; preview = preview; expires = now + draft_ttl }) room.drafts,
        contains-append room.order (token ∷ []) t,
        make_room-Listed (prune_expired now b) v' t e,
      );
    }

module _ {W L : Type 0} (deliverer : Deliverer W) (limits : Limiter L) (per_seconds : ℕ) where
  claim-IsBounded :
      (accept : DraftEntry → Bool) (token : String) (now : ℕ) (s : State W L)
      → IsBounded (book s)
      → IsBounded (book (claim deliverer limits per_seconds accept token now s).1)
  unfolding claim
  claim-IsBounded accept token now s v = record {
    fits = ground (arith, v.fits);
    listed = λ t e p. ground (arith, v.listed t e, lookup-remove token t s.drafts);
  }

  -- A delivery, whatever it answers, leaves the drafts alone.
  book-send :
      (d : Delivery) (preview : String) (s : State W L)
      → book (send deliverer limits per_seconds d preview s).1 ≡ book s
  unfolding send
  book-send d preview s = refl

  book-deliver_now :
      (d : Delivery) (preview : String) (now : ℕ) (s : State W L)
      → book (deliver_now deliverer limits per_seconds d preview now s).1 ≡ book s
  unfolding deliver_now
  book-deliver_now d preview now s = ground arith

  book-commit :
      (d : Delivery) (token preview : String) (now : ℕ) (s : State W L)
      → book (commit deliverer limits per_seconds d token preview now s).1
        ≡ book (claim deliverer limits per_seconds (λ e. deep_equal e.delivery d) token now s).1
  unfolding commit claim
  book-commit d token preview now s = ground arith

  book-approve :
      (token : String) (now : ℕ) (s : State W L)
      → book (approve deliverer limits per_seconds token now s).1
        ≡ book (claim deliverer limits per_seconds (λ e. true) token now s).1
  unfolding approve claim
  book-approve token now s = ground arith

  discard-IsBounded :
      (token : String) (s : State W L)
      → IsBounded (book s)
      → IsBounded (book (discard deliverer limits per_seconds token s).1)
  unfolding discard
  discard-IsBounded token s v = record {
    fits = ground (arith, v.fits);
    listed = λ t e p. ground (arith, v.listed t e, lookup-remove token t s.drafts);
  }

  module _ (codec : Codec) where
    create_draft-IsBounded :
        (m : Moment) (d : Delivery) (preview : String) (s : State W L)
        → IsBounded (book s)
        → IsBounded (book (create_draft deliverer limits per_seconds codec m d preview s).1)
    unfolding create_draft
    create_draft-IsBounded m d preview s v = elim (Result-cases (new_draft_token codec d m.nonce)) [
      | inl (e, p) ↦ rw (p, create_draft) v
      | inr (t, p) ↦ rw (p, create_draft) (store_draft-IsBounded m.now t d preview (book s) v)
    ]

    submit-IsBounded :
        (m : Moment) (d : Delivery) (token : String) (s : State W L)
        → IsBounded (book s)
        → IsBounded (book (submit deliverer limits per_seconds codec m d token s).1)
    submit-IsBounded m d token s v =
        submit_branches deliverer limits per_seconds codec (λ t. IsBounded (book t)) s m d token v
          (λ preview. rw (book-commit d token preview m.now s) (claim-IsBounded _ token m.now s v))
          (λ preview. create_draft-IsBounded m d preview s v)
          (λ preview. rw (book-deliver_now d preview m.now s) v)

    pub step-IsBounded :
        (m : Moment) (c : Call) (s : State W L)
        → IsBounded (book s)
        → IsBounded (book (step deliverer limits per_seconds codec m c s))
    unfolding step list_drafts
    step-IsBounded m (submits d token) s v = submit-IsBounded m d token s v
    step-IsBounded m (approves token) s v =
        rw (book-approve token m.now s) (claim-IsBounded _ token m.now s v)
    step-IsBounded m (discards token) s v = discard-IsBounded token s v
    step-IsBounded m lists s v = prune_expired-IsBounded m.now (book s) v
    step-IsBounded m (fires d) s v =
        scheduled_branches deliverer limits per_seconds codec (λ t. IsBounded (book t)) s d m.now v
          (λ preview. rw (book-deliver_now d preview m.now s) v)

    pub run-IsBounded_from :
        (s : State W L) (cs : List (Moment × Call))
        → IsBounded (book s)
        → IsBounded (book (run deliverer limits per_seconds codec s cs))
    unfolding run
    run-IsBounded_from s [] v = v
    run-IsBounded_from s ((m, c) ∷ cs) v =
        run-IsBounded_from (step deliverer limits per_seconds codec m c s) cs
          (step-IsBounded m c s v)

    -- From a new gate, after any calls at any moments, with any deliverer and any rate limiter:
    -- the order holds at most `draft_cap` tokens, and every stored draft has its token there.
    pub run-IsBounded :
        (w : W) (l : L) (cs : List (Moment × Call))
        → IsBounded (book (run deliverer limits per_seconds codec (new_state w l) cs))
    unfolding new_state lookup
    run-IsBounded w l cs =
        run-IsBounded_from (new_state w l) cs
          (record { fits = omega arith; listed = λ t e p. ground arith })
