-- ===== src/Gate/Branches.antt =====
-- What a property of states needs to survive a call of internal/gate/gate.go: that it survives
-- the branches that Submit, DeliverScheduled, commit and Approve can take.
use whatsapp_connect_mcp.Prelude.{ℕ, String, arith, inl, inr, Result-cases}
use whatsapp_connect_mcp.Gate.Types.{Delivery, Deliverer, Limiter, State, deep_equal}
use whatsapp_connect_mcp.Gate.Render.{Codec, build_preview}
use whatsapp_connect_mcp.Gate.Ops.{
  Moment, ask, claim, send, commit, create_draft, submit, deliver_now, deliver_scheduled,
}

module _ {W L : Type 0} (deliverer : Deliverer W) (limits : Limiter L) (per_seconds : ℕ)
    (codec : Codec) (P : State W L → Type 0) (s : State W L) where
  pub commit_branches :
      (d : Delivery) (token preview : String) (now : ℕ)
      → P (claim deliverer limits per_seconds (λ e. deep_equal e.delivery d) token now s).1
      → ((t : State W L) → P t → P (send deliverer limits per_seconds d preview t).1)
      → P (commit deliverer limits per_seconds d token preview now s).1
  unfolding commit
  commit_branches d token preview now claimed sent =
      elim (Result-cases
        (claim deliverer limits per_seconds (λ e. deep_equal e.delivery d) token now s).0) [
          | inl (e, p) ↦ rw (p, commit) claimed
          | inr (e, p) ↦ rw (p, commit) (sent _ claimed)
        ]

  pub submit_branches :
      (m : Moment) (d : Delivery) (token : String)
      → P s
      → ((preview : String) → P (commit deliverer limits per_seconds d token preview m.now s).1)
      → ((preview : String) → P (create_draft deliverer limits per_seconds codec m d preview s).1)
      → ((preview : String) → P (deliver_now deliverer limits per_seconds d preview m.now s).1)
      → P (submit deliverer limits per_seconds codec m d token s).1
  unfolding submit
  submit_branches m d token stays commits drafts delivers =
      let preview = build_preview codec (ask "" m.resolve_name d.to) d in
      ground (arith, commits preview, drafts preview, delivers preview)

  pub scheduled_branches :
      (d : Delivery) (now : ℕ)
      → P s
      → ((preview : String) → P (deliver_now deliverer limits per_seconds d preview now s).1)
      → P (deliver_scheduled deliverer limits per_seconds codec d now s).1
  unfolding deliver_scheduled
  scheduled_branches d now stays delivers = ground (arith, delivers (build_preview codec "" d))
