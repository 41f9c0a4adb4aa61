-- ===== src/Gate/Trust.antt =====
-- Who may be sent to without a confirmation, in Submit of internal/gate/gate.go.
use whatsapp_connect_mcp.Prelude.{
  ℕ, String, Bool, true, false, ◌&&◌, ◌||◌, not, some, ◌≡◌, arith, inl, inr, ◌⊎◌, Bool-cases, ok,
  err, ◌==◌, eq_iff, Option-cases,
}
use whatsapp_connect_mcp.Prelude.Dict.{lookup}
use whatsapp_connect_mcp.Gate.Types.{
  Delivery, SendResult, draft_invalid, rate_limited, Deliverer, Limiter, State, DraftEntry,
  deep_equal, deep_equal_sound,
}
use whatsapp_connect_mcp.Gate.Render.{Codec, new_draft_token, build_preview}
use whatsapp_connect_mcp.Gate.Drafts.{is_live}
use whatsapp_connect_mcp.Gate.Ops.{
  Moment, ask, always_drafts, create_draft, submit, commit, claim, send, report,
}

-- Submit, called without a token, for a kind that must be confirmed on every call, or for any
-- kind but a read receipt to a recipient that is not trusted.
abbrev pub must_confirm : Moment → Delivery → Bool
must_confirm m d =
    always_drafts d.kind || (not (d.kind == "read") && not (ask false m.trusted d.to))

module _ {W L : Type 0} (deliverer : Deliverer W) (limits : Limiter L) (per_seconds : ℕ)
    (codec : Codec) where
  -- A submit without a token that must be confirmed leaves the deliverer and the limiter alone.
  -- If it succeeds, it has not sent: it answers the token that it minted and the preview of this
  -- very delivery.
  pub unconfirmed_sends_nothing :
      (m : Moment) (d : Delivery) (s : State W L)
      → must_confirm m d ≡ true
      → let (answer, t) = submit deliverer limits per_seconds codec m d "" s in
        (t.world ≡ s.world)
        × (t.limiter ≡ s.limiter)
        × ((r : SendResult)
            → answer ≡ ok r
            → (r.sent ≡ false)
              × (new_draft_token codec d m.nonce ≡ ok r.draft_token)
              × (r.preview ≡ build_preview codec (ask "" m.resolve_name d.to) d))
  unfolding submit create_draft
  unconfirmed_sends_nothing m d s h = (
    ground (arith, eq_iff "" ""),
    ground (arith, eq_iff "" ""),
    λ r p. ground (arith, eq_iff "" "", p),
  )

  -- Either the token names a live draft of this very delivery, or commit answers draft_invalid and
  -- changes nothing at all, the limiter included.
  pub commit_exact :
      (d : Delivery) (token preview : String) (now : ℕ) (s : State W L)
      → ((e : DraftEntry) × (lookup token s.drafts ≡ some e)
          × (is_live now e ≡ true)
          × (e.delivery ≡ d))
        ⊎ (commit deliverer limits per_seconds d token preview now s ≡ (err draft_invalid, s))
  unfolding commit claim
  commit_exact d token preview now s = elim (Option-cases (lookup token s.drafts)) [
    | inl p ↦ inr (rw (p, commit, claim))
    | inr (e, p) ↦ elim (Bool-cases (is_live now e && deep_equal e.delivery d)) [
      | inl match ↦ inl (e, p, ground arith, deep_equal_sound e.delivery d (ground arith))
      | inr none_such ↦ inr (rw (p, commit, claim) (rw none_such))
    ]
  ]

  -- A commit that is refused a rate token names the seconds to wait, leaves every draft and the
  -- order as they were, and delivers nothing: the same commit can be tried again.
  pub limited_keeps_draft :
      (d : Delivery) (token preview : String) (now : ℕ) (s : State W L) {wait : ℕ}
      → let (answer, t) = commit deliverer limits per_seconds d token preview now s in
        answer ≡ err (rate_limited wait)
        → (t.drafts ≡ s.drafts) × (t.order ≡ s.order) × (t.world ≡ s.world) × (wait ≡ per_seconds)
  unfolding commit claim send report
  limited_keeps_draft d token preview now s h = ground arith
