-- ===== src/Gate/Moves.antt =====
-- What one call of internal/gate/gate.go can do to the deliverer and to the limiter.
use whatsapp_connect_mcp.Prelude.{
  ℕ, String, true, false, ◌&&◌, ◌≡◌, refl, inl, inr, Bool-cases, Option-cases, arith,
}
use whatsapp_connect_mcp.Prelude.Dict.{lookup}
use whatsapp_connect_mcp.Gate.Types.{Delivery, Deliverer, Limiter, State, deep_equal}
use whatsapp_connect_mcp.Gate.Render.{Codec}
use whatsapp_connect_mcp.Gate.Drafts.{is_live}
use whatsapp_connect_mcp.Gate.Ops.{
  Moment, claim, commit, approve, discard, list_drafts, create_draft, deliver_now, send,
}
use whatsapp_connect_mcp.Gate.Branches.{submit_branches, scheduled_branches}
use whatsapp_connect_mcp.Gate.Calls.{Call, submits, approves, discards, lists, fires, step}

module _ {W L : Type 0} (deliverer : Deliverer W) (limits : Limiter L) (now : ℕ)
    (s : State W L) where
  -- From `s` to `t` at time `now`: nothing was delivered and no rate token was asked for; or one
  -- was asked for and refused; or one was granted, and Deliver was called once.
  pub data Moves (t : State W L) : Type 0 where
    stays : t.world ≡ s.world → t.limiter ≡ s.limiter → Moves t
    refused :
        (limits.allow_n now s.limiter).0 ≡ false
        → t.world ≡ s.world
        → t.limiter ≡ (limits.allow_n now s.limiter).1
        → Moves t
    delivered :
        (d : Delivery)
        → (limits.allow_n now s.limiter).0 ≡ true
        → t.world ≡ (deliverer.deliver d s.world).1
        → t.limiter ≡ (limits.allow_n now s.limiter).1
        → Moves t

module _ {W L : Type 0} (deliverer : Deliverer W) (limits : Limiter L) (per_seconds now : ℕ)
    (s : State W L) where
  abbrev MovesHere : State W L → Type 0
  MovesHere = Moves deliverer limits now s

  deliver_now-Moves :
      (d : Delivery) (preview : String)
      → MovesHere (deliver_now deliverer limits per_seconds d preview now s).1
  unfolding deliver_now send
  deliver_now-Moves d preview = elim (Bool-cases (limits.allow_n now s.limiter).0) [
    | inl e ↦ rw (e, deliver_now) (delivered d e refl refl)
    | inr e ↦ rw (e, deliver_now) (refused e refl refl)
  ]

  commit-Moves :
      (d : Delivery) (token preview : String)
      → MovesHere (commit deliverer limits per_seconds d token preview now s).1
  unfolding commit claim send
  commit-Moves d token preview = elim (Option-cases (lookup token s.drafts)) [
    | inl e ↦ rw (e, commit, claim) (stays refl refl)
    | inr (entry, e) ↦ elim (Bool-cases (is_live now entry && deep_equal entry.delivery d)) [
      | inr no_match ↦ rw (e, commit, claim) (rw no_match (stays refl refl))
      | inl match ↦ elim (Bool-cases (limits.allow_n now s.limiter).0) [
        | inl a ↦ rw (e, commit, claim) (rw match (rw a (delivered d a refl refl)))
        | inr a ↦ rw (e, commit, claim) (rw match (rw a (refused a refl refl)))
      ]
    ]
  ]

  approve-Moves : (token : String) → MovesHere (approve deliverer limits per_seconds token now s).1
  unfolding approve claim send
  approve-Moves token = elim (Option-cases (lookup token s.drafts)) [
    | inl e ↦ rw (e, approve, claim) (stays refl refl)
    | inr (entry, e) ↦ elim (Bool-cases (is_live now entry && true)) [
      | inr no_match ↦ rw (e, approve, claim) (rw no_match (stays refl refl))
      | inl match ↦ elim (Bool-cases (limits.allow_n now s.limiter).0) [
        | inl a ↦ rw (e, approve, claim) (rw match (rw a (delivered entry.delivery a refl refl)))
        | inr a ↦ rw (e, approve, claim) (rw match (rw a (refused a refl refl)))
      ]
    ]
  ]

  module _ (codec : Codec) where
    create_draft-Moves :
        (m : Moment) (d : Delivery) (preview : String)
        → MovesHere (create_draft deliverer limits per_seconds codec m d preview s).1
    unfolding create_draft
    create_draft-Moves m d preview = stays (ground arith) (ground arith)

    discard-Moves : (token : String) → MovesHere (discard deliverer limits per_seconds token s).1
    unfolding discard
    discard-Moves token = stays (ground arith) (ground arith)

-- Every call either leaves the deliverer and the limiter alone, or is refused a rate token, or
-- takes one and delivers once: there is no delivery without a token, and never two in one call.
pub step-Moves :
    {W L : Type 0} (deliverer : Deliverer W) (limits : Limiter L) (per_seconds : ℕ) (codec : Codec)
    (m : Moment) (c : Call) (s : State W L)
    → Moves deliverer limits m.now s (step deliverer limits per_seconds codec m c s)
unfolding step list_drafts
step-Moves deliverer limits per_seconds codec m (submits d token) s =
    submit_branches deliverer limits per_seconds codec (Moves deliverer limits m.now s) s m d token
      (stays refl refl)
      (λ preview. commit-Moves deliverer limits per_seconds m.now s d token preview)
      (λ preview. create_draft-Moves deliverer limits per_seconds m.now s codec m d preview)
      (λ preview. deliver_now-Moves deliverer limits per_seconds m.now s d preview)
step-Moves deliverer limits per_seconds codec m (approves token) s =
    approve-Moves deliverer limits per_seconds m.now s token
step-Moves deliverer limits per_seconds codec m (discards token) s =
    discard-Moves deliverer limits per_seconds m.now s codec token
step-Moves deliverer limits per_seconds codec m lists s = stays refl refl
step-Moves deliverer limits per_seconds codec m (fires d) s =
    scheduled_branches deliverer limits per_seconds codec (Moves deliverer limits m.now s) s d m.now
      (stays refl refl)
      (λ preview. deliver_now-Moves deliverer limits per_seconds m.now s d preview)
