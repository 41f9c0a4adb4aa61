-- ===== src/Gate/Expiry/Histories.antt =====
-- What the Drafts listing of internal/gate/gate.go shows, after any history of the gate.
use whatsapp_connect_mcp.Prelude.{
  ℕ, ◌+◌, String, Bool, true, false, List, [], ◌∷◌, ◌≡◌, arith, inl, inr, Result-cases, contains,
  eq_iff,
}
use whatsapp_connect_mcp.Prelude.Dict.{lookup}
use whatsapp_connect_mcp.Gate.Types.{Delivery, DraftEntry, Deliverer, Limiter, State, draft_ttl}
use whatsapp_connect_mcp.Gate.Render.{Codec, new_draft_token}
use whatsapp_connect_mcp.Gate.Drafts.{prune_expired}
use whatsapp_connect_mcp.Gate.Ops.{
  Moment, book, claim, commit, approve, discard, list_drafts, create_draft, deliver_now, new_state,
}
use whatsapp_connect_mcp.Gate.Branches.{submit_branches, scheduled_branches}
use whatsapp_connect_mcp.Gate.Calls.{
  Call, submits, approves, discards, lists, fires, step, run, Forward,
}
use whatsapp_connect_mcp.Gate.Bounded.{run-IsBounded}
use whatsapp_connect_mcp.Gate.Once.{mints}
use whatsapp_connect_mcp.Gate.Rate.{last_time}
use whatsapp_connect_mcp.Gate.Expiry.{Ascending-raise, Ascending-remove, prune_from-Ascending}
use whatsapp_connect_mcp.Gate.Expiry.Exact.{
  IsOrdered, keep_live, lookup-prune_from, store_draft-Ascending,
}

module _ {W L : Type 0} (deliverer : Deliverer W) (limits : Limiter L) (per_seconds : ℕ)
    (codec : Codec) where
  -- Every token is new to the order when it is minted: eight random bytes under SHA-256.
  abbrev pub Fresh : State W L → List (Moment × Call) → Type 0
  Fresh s [] = Unit
  Fresh s ((m, c) ∷ cs) =
      ((t : String) → mints codec t (m, c) ≡ true → contains s.order t ≡ false)
      × Fresh (step deliverer limits per_seconds codec m c s) cs

  create_draft-IsOrdered :
      (m : Moment) (d : Delivery) (t preview : String) (s : State W L)
      → ((k : String) → mints codec k (m, submits d t) ≡ true → contains s.order k ≡ false)
      → IsOrdered m.now s
      → IsOrdered m.now (create_draft deliverer limits per_seconds codec m d preview s).1
  unfolding create_draft
  create_draft-IsOrdered m d t preview s new h =
      elim (Result-cases (new_draft_token codec d m.nonce)) [
        | inl (e, p) ↦ rw (p, create_draft) h
        | inr (k, p) ↦
            rw (p, create_draft)
              (store_draft-Ascending m.now k d preview (book s) (ground (arith, new k, eq_iff k k))
                h)
      ]

  claim-IsOrdered :
      (accept : DraftEntry → Bool) (token : String) (now : ℕ) (s : State W L)
      → IsOrdered now s
      → IsOrdered now (claim deliverer limits per_seconds accept token now s).1
  unfolding claim
  claim-IsOrdered accept token now s h =
      ground (arith, Ascending-remove s.drafts token 0 s.order (now + draft_ttl) h)

  step-IsOrdered :
      (m : Moment) (c : Call) (s : State W L)
      → ((k : String) → mints codec k (m, c) ≡ true → contains s.order k ≡ false)
      → IsOrdered m.now s
      → IsOrdered m.now (step deliverer limits per_seconds codec m c s)
  unfolding step discard list_drafts prune_expired deliver_now commit approve claim
  step-IsOrdered m (submits d t) s new h =
      submit_branches deliverer limits per_seconds codec (IsOrdered m.now) s m d t h
        (λ preview. ground (arith, Ascending-remove s.drafts t 0 s.order (m.now + draft_ttl) h))
        (λ preview. create_draft-IsOrdered m d t preview s new h) (λ preview. ground arith)
  step-IsOrdered m (approves t) s new h =
      ground (arith, Ascending-remove s.drafts t 0 s.order (m.now + draft_ttl) h)
  step-IsOrdered m (discards t) s new h =
      ground (arith, Ascending-remove s.drafts t 0 s.order (m.now + draft_ttl) h)
  step-IsOrdered m lists s new h =
      prune_from-Ascending m.now s.drafts 0 s.order (m.now + draft_ttl) h
  step-IsOrdered m (fires d) s new h =
      scheduled_branches deliverer limits per_seconds codec (IsOrdered m.now) s d m.now h
        (λ preview. ground arith)

  run-IsOrdered :
      (now : ℕ) (s : State W L) (cs : List (Moment × Call))
      → Forward now cs
      → Fresh s cs
      → IsOrdered now s
      → IsOrdered (last_time now cs) (run deliverer limits per_seconds codec s cs)
  unfolding run
  run-IsOrdered now s [] f new h = h
  run-IsOrdered now s ((m, c) ∷ cs) f new h =
      run-IsOrdered m.now (step deliverer limits per_seconds codec m c s) cs f.1 new.1 (
        step-IsOrdered m c s new.0 (
          Ascending-raise s.drafts 0 s.order (now + draft_ttl) (m.now + draft_ttl) (omega arith) h))

-- After any calls on a new gate, at times that do not go back and with tokens that are new when
-- minted, a listing keeps exactly the live drafts: under every token it leaves the draft that was
-- there, if that has not expired at the time of the listing, and nothing otherwise.
pub list_exact :
    {W L : Type 0} (deliverer : Deliverer W) (limits : Limiter L) (per_seconds : ℕ) (codec : Codec)
    (w : W) (l : L) (start : ℕ) (cs : List (Moment × Call)) (now : ℕ) (token : String)
    → Forward start cs
    → Fresh deliverer limits per_seconds codec (new_state w l) cs
    → let s = run deliverer limits per_seconds codec (new_state w l) cs in
      lookup token (list_drafts deliverer limits per_seconds now s).1.drafts
      ≡ keep_live now (lookup token s.drafts)
unfolding list_drafts prune_expired
list_exact deliverer limits per_seconds codec w l start cs now token f new =
    let s = run deliverer limits per_seconds codec (new_state w l) cs in
    lookup-prune_from now s.drafts 0 s.order (last_time start cs + draft_ttl) token
      (run-IsOrdered deliverer limits per_seconds codec start (new_state w l) cs f new
        (unfold new_state in omega arith))
      (run-IsBounded deliverer limits per_seconds codec w l cs).listed
