-- ===== src/Gate/Once.antt =====
-- How often a draft of internal/gate/gate.go can be delivered: the histories that follow a
-- confirmation by commit or by Approve.
use whatsapp_connect_mcp.Prelude.{
  ℕ, ◌+◌, String, Bool, false, none, List, [], ◌∷◌, ◌≡◌, arith, inl, inr, Result, ok, err,
  Result-cases, All, ◌==◌, eq_iff,
}
use whatsapp_connect_mcp.Prelude.Dict.{Dict, lookup, remove, lookup-remove, lookup-insert}
use whatsapp_connect_mcp.Gate.Types.{
  Delivery, DraftEntry, Error, draft_invalid, deliver_failed, SendResult, Deliverer, Limiter, State,
  draft_ttl,
}
use whatsapp_connect_mcp.Gate.Render.{Codec, new_draft_token}
use whatsapp_connect_mcp.Gate.Drafts.{
  Book, prune_from, prune_expired, drop_front, evict_oldest, make_room, store_draft,
}
use whatsapp_connect_mcp.Gate.Ops.{
  Moment, book, claim, commit, approve, discard, list_drafts, create_draft, deliver_now,
}
use whatsapp_connect_mcp.Gate.Branches.{submit_branches, scheduled_branches}
use whatsapp_connect_mcp.Gate.Calls.{Call, submits, approves, discards, lists, fires, step, run}

-- Whether a call mints the token. Only a submit can, and it then names its draft by it.
abbrev pub mints : Codec → String → Moment × Call → Bool
mints codec token (m, submits d _) = elim (new_draft_token codec d m.nonce) [
  | ok t ↦ t == token
  | err e ↦ false
]
mints codec token (m, approves _) = false
mints codec token (m, discards _) = false
mints codec token (m, lists) = false
mints codec token (m, fires _) = false

abbrev Gone : String → Dict DraftEntry → Type 0
Gone token d = lookup token d ≡ none

remove-Gone : (k token : String) (d : Dict DraftEntry) → Gone token d → Gone token (remove k d)
remove-Gone k token d h = ground (arith, lookup-remove k token d)

prune_from-Gone :
    (now : ℕ) (token : String) (d : Dict DraftEntry) (ts : List String)
    → Gone token d
    → Gone token (prune_from now d ts).drafts
unfolding prune_from
prune_from-Gone now token d [] h = h
prune_from-Gone now token d (k ∷ ts) h =
    ground (arith, prune_from-Gone now token (remove k d) ts (remove-Gone k token d h))

drop_front-Gone :
    (token : String) (d : Dict DraftEntry) (ts : List String)
    → Gone token d
    → Gone token (drop_front d ts).drafts
unfolding drop_front
drop_front-Gone token d [] h = h
drop_front-Gone token d (k ∷ ts) h = remove-Gone k token d h

make_room-Gone : (token : String) (b : Book) → Gone token b.drafts → Gone token (make_room b).drafts
unfolding make_room evict_oldest
make_room-Gone token b h = ground (arith, drop_front-Gone token b.drafts b.order h)

store_draft-Gone :
    (now : ℕ) (k token : String) (d : Delivery) (preview : String) (b : Book)
    → (k == token) ≡ false
    → Gone token b.drafts
    → Gone token (store_draft now k d preview b).drafts
unfolding store_draft prune_expired
store_draft-Gone now k token d preview b other h =
    let room = make_room (prune_expired now b) in
    ground (
      arith,
      lookup-insert k token (record { delivery = d; preview = preview; expires = now + draft_ttl })
          room.drafts,
      make_room-Gone token (prune_expired now b) (prune_from-Gone now token b.drafts b.order h),
    )

-- The two ways to confirm a draft: by the identical call with its token, or in the dashboard.
pub data Confirmation : Type 0 where
  resubmitted : Delivery → String → Confirmation
  approved : Confirmation

-- Deliver was called: it answered a message id or an error.
abbrev pub Attempted : Result Error SendResult → Type 0
Attempted (ok r) = Unit
Attempted (err (deliver_failed e)) = Unit
Attempted (err _) = ⊥

module _ {W L : Type 0} (deliverer : Deliverer W) (limits : Limiter L) (per_seconds : ℕ) where
  abbrev pub confirm : Confirmation → String → ℕ → State W L → Result Error SendResult × State W L
  confirm (resubmitted d preview) token now s =
      commit deliverer limits per_seconds d token preview now s
  confirm approved token now s = approve deliverer limits per_seconds token now s

  confirm-Gone :
      (c : Confirmation) (token : String) (now : ℕ) (s : State W L)
      → Gone token s.drafts
      → confirm c token now s ≡ (err draft_invalid, s)
  unfolding commit approve claim
  confirm-Gone (resubmitted d preview) token now s h = rw (h, commit, claim)
  confirm-Gone approved token now s h = rw (h, approve, claim)

  claim_takes_out :
      (accept : DraftEntry → Bool) (token : String) (now : ℕ) (s : State W L) {e : DraftEntry}
      → (claim deliverer limits per_seconds accept token now s).0 ≡ ok e
      → Gone token (claim deliverer limits per_seconds accept token now s).1.drafts
  unfolding claim
  claim_takes_out accept token now s h =
      ground (arith, lookup-remove token token s.drafts, eq_iff token token)

  confirm_takes_out :
      (c : Confirmation) (token : String) (now : ℕ) (s : State W L)
      → Attempted (confirm c token now s).0
      → Gone token (confirm c token now s).1.drafts
  unfolding commit approve claim
  confirm_takes_out (resubmitted d preview) token now s h =
      ground (arith, lookup-remove token token s.drafts, eq_iff token token)
  confirm_takes_out approved token now s h =
      ground (arith, lookup-remove token token s.drafts, eq_iff token token)

  claim-Gone :
      (accept : DraftEntry → Bool) (k token : String) (now : ℕ) (s : State W L)
      → Gone token s.drafts
      → Gone token (claim deliverer limits per_seconds accept k now s).1.drafts
  unfolding claim
  claim-Gone accept k token now s h = ground (arith, lookup-remove k token s.drafts)

  module _ (codec : Codec) (token : String) where
    abbrev GoneIn : State W L → Type 0
    GoneIn s = Gone token s.drafts

    commit-Gone :
        (d : Delivery) (k preview : String) (now : ℕ) (s : State W L)
        → GoneIn s
        → GoneIn (commit deliverer limits per_seconds d k preview now s).1
    unfolding commit claim
    commit-Gone d k preview now s h = ground (arith, lookup-remove k token s.drafts)

    approve-Gone :
        (k : String) (now : ℕ) (s : State W L)
        → GoneIn s
        → GoneIn (approve deliverer limits per_seconds k now s).1
    unfolding approve claim
    approve-Gone k now s h = ground (arith, lookup-remove k token s.drafts)

    create_draft-Gone :
        (m : Moment) (d : Delivery) (t preview : String) (s : State W L)
        → mints codec token (m, submits d t) ≡ false
        → GoneIn s
        → GoneIn (create_draft deliverer limits per_seconds codec m d preview s).1
    unfolding create_draft
    create_draft-Gone m d t preview s other h =
        elim (Result-cases (new_draft_token codec d m.nonce)) [
          | inl (e, p) ↦ rw (p, create_draft) h
          | inr (k, p) ↦
              rw (p, create_draft)
                (store_draft-Gone m.now k token d preview (book s) (ground arith) h)
        ]

    step-Gone :
        (m : Moment) (c : Call) (s : State W L)
        → mints codec token (m, c) ≡ false
        → GoneIn s
        → GoneIn (step deliverer limits per_seconds codec m c s)
    unfolding step discard list_drafts prune_expired deliver_now
    step-Gone m (submits d t) s other h =
        submit_branches deliverer limits per_seconds codec GoneIn s m d t h
          (λ preview. commit-Gone d t preview m.now s h)
          (λ preview. create_draft-Gone m d t preview s other h) (λ preview. ground arith)
    step-Gone m (approves k) s other h = approve-Gone k m.now s h
    step-Gone m (discards k) s other h = ground (arith, lookup-remove k token s.drafts)
    step-Gone m lists s other h = prune_from-Gone m.now token s.drafts s.order h
    step-Gone m (fires d) s other h =
        scheduled_branches deliverer limits per_seconds codec GoneIn s d m.now h
          (λ preview. ground arith)

    run-Gone :
        (s : State W L) (cs : List (Moment × Call))
        → All (λ c. mints codec token c ≡ false) cs
        → GoneIn s
        → GoneIn (run deliverer limits per_seconds codec s cs)
    unfolding run
    run-Gone s [] others h = h
    run-Gone s ((m, c) ∷ cs) others h =
        run-Gone (step deliverer limits per_seconds codec m c s) cs others.1
          (step-Gone m c s others.0 h)

-- Once a confirmation of a token, by commit or by Approve, has called Deliver, whatever Deliver
-- answered: after any further calls of which none mints the same token again, a second
-- confirmation of it, of either kind and at any time, answers draft_invalid and changes nothing.
pub at_most_once :
    {W L : Type 0} (deliverer : Deliverer W) (limits : Limiter L) (per_seconds : ℕ) (codec : Codec)
    (first second : Confirmation) (token : String) (now later : ℕ) (s : State W L)
    (cs : List (Moment × Call))
    → Attempted (confirm deliverer limits per_seconds first token now s).0
    → All (λ c. mints codec token c ≡ false) cs
    → let s' =
        run deliverer limits per_seconds codec
          (confirm deliverer limits per_seconds first token now s).1
          cs in
      confirm deliverer limits per_seconds second token later s' ≡ (err draft_invalid, s')
at_most_once deliverer limits per_seconds codec first second token now later s cs done others =
    confirm-Gone deliverer limits per_seconds second token later _ (
      run-Gone deliverer limits per_seconds codec token _ cs others
        (confirm_takes_out deliverer limits per_seconds first token now s done))
