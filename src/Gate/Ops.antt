-- ===== src/Gate/Ops.antt =====
-- The entry points of internal/gate/gate.go: New, Submit, Approve, Discard, Drafts and
-- DeliverScheduled. Each returns its answer and the new state; the clock, the trust test, the
-- name lookup and the random bytes of a call come with it as a `Moment`.
use whatsapp_connect_mcp.Prelude.{
  ℕ, String, Bool, true, false, not, ◌&&◌, ◌||◌, Option, none, some, List, [], ◌==◌, if◌then◌else◌,
  Result, ok, err,
}
use whatsapp_connect_mcp.Prelude.Dict.{lookup, remove}
use whatsapp_connect_mcp.Gate.Types.{
  Delivery, SendResult, Error, invalid, draft_invalid, rate_limited, deliver_failed, DraftEntry,
  Deliverer, Limiter, State, deep_equal,
}
use whatsapp_connect_mcp.Gate.Drafts.{
  DraftInfo, Book, is_live, prune_expired, store_draft, list_infos,
}
use whatsapp_connect_mcp.Gate.Render.{Codec, build_preview, new_draft_token}

pub record Moment : Type 0 where
  pub now : ℕ
  pub trusted : Option (String → Bool)
  pub resolve_name : Option (String → String)
  pub nonce : Option String

abbrev pub ask {ℓ} : {A : Type ℓ} → A → Option (String → A) → String → A
ask otherwise none jid = otherwise
ask otherwise (some f) jid = f jid

unfoldable pub always_drafts : String → Bool
always_drafts kind = kind == "block" || kind == "unblock"

-- A fresh gate, as New returns it.
unfoldable pub new_state : {W L : Type 0} → W → L → State W L
new_state w l = record { world = w; limiter = l; drafts = []; order = [] }

abbrev pub book : {W L : Type 0} → State W L → Book
book s = record { drafts = s.drafts; order = s.order }

module _ {W L : Type 0} (deliverer : Deliverer W) (limits : Limiter L) (per_seconds : ℕ) where
  -- What a delivery answers, and `Sent: true` where it worked.
  unfoldable pub report : String → Result String String → Result Error SendResult
  report preview (ok id) =
      ok (record { sent = true; message_id = id; draft_token = ""; preview = preview })
  report preview (err e) = err (deliver_failed e)

  -- The call of Deliver, outside the lock.
  unfoldable pub send : Delivery → String → State W L → Result Error SendResult × State W L
  unfolding report
  send d preview s =
      let (answer, w) = deliverer.deliver d s.world in
      (report preview answer, record s { world = w })

  unfoldable pub deliver_now :
      Delivery → String → ℕ → State W L → Result Error SendResult × State W L
  unfolding send
  deliver_now d preview now s =
      let (allowed, l) = limits.allow_n now s.limiter in
      let limited = record s { limiter = l } in
      if allowed then send d preview limited else (err (rate_limited per_seconds), limited)

  -- The critical section of commit and Approve: find the draft, test it, take a rate token, and
  -- take the draft out. `accept` is what commit asks of the draft beyond being live.
  unfoldable pub claim :
      (DraftEntry → Bool) → String → ℕ → State W L → Result Error DraftEntry × State W L
  claim accept token now s = elim (lookup token s.drafts) [
    | none ↦ (err draft_invalid, s)
    | some e ↦
        if is_live now e && accept e
        then (let (allowed, l) = limits.allow_n now s.limiter in
            if allowed
            then (ok e, record s { limiter = l; drafts = remove token s.drafts })
            else (err (rate_limited per_seconds), record s { limiter = l }))
        else (err draft_invalid, s)
  ]

  abbrev send_claimed :
      (DraftEntry → Delivery)
      → (DraftEntry → String)
      → Result Error DraftEntry × State W L
      → Result Error SendResult × State W L
  send_claimed what preview (err e, s) = (err e, s)
  send_claimed what preview (ok e, s) = send (what e) (preview e) s

  unfoldable pub commit :
      Delivery → String → String → ℕ → State W L → Result Error SendResult × State W L
  unfolding send
  commit d token preview now s =
      send_claimed (λ e. d) (λ e. preview) (claim (λ e. deep_equal e.delivery d) token now s)

  unfoldable pub approve : String → ℕ → State W L → Result Error SendResult × State W L
  unfolding send
  approve token now s =
      send_claimed (λ e. e.delivery) (λ e. e.preview) (claim (λ e. true) token now s)

  unfoldable pub discard : String → State W L → Bool × State W L
  discard token s = elim (lookup token s.drafts) [
    | none ↦ (false, s)
    | some e ↦ (true, record s { drafts = remove token s.drafts })
  ]

  unfoldable pub list_drafts : ℕ → State W L → List DraftInfo × State W L
  list_drafts now s =
      let b = prune_expired now (book s) in
      (list_infos b.drafts b.order, record s { drafts = b.drafts; order = b.order })

  unfoldable pub create_draft :
      Codec → Moment → Delivery → String → State W L → Result Error SendResult × State W L
  create_draft codec m d preview s = elim (new_draft_token codec d m.nonce) [
    | err e ↦ (err e, s)
    | ok token ↦
        let b = store_draft m.now token d preview (book s) in
        (
          ok (record { sent = false; message_id = ""; draft_token = token; preview = preview }),
          record s { drafts = b.drafts; order = b.order },
        )
  ]

  unfoldable pub submit :
      Codec → Moment → Delivery → String → State W L → Result Error SendResult × State W L
  unfolding always_drafts
  submit codec m d token s =
      let preview = build_preview codec (ask "" m.resolve_name d.to) d in
      elim (deliverer.validate d s.world) [
        | some e ↦ (err (invalid e), s)
        | none ↦
            if not (token == "")
            then commit d token preview m.now s
            else if always_drafts d.kind
            then create_draft codec m d preview s
            else if d.kind == "read" || ask false m.trusted d.to
            then deliver_now d preview m.now s
            else create_draft codec m d preview s
      ]

  unfoldable pub deliver_scheduled :
      Codec → Delivery → ℕ → State W L → Result Error SendResult × State W L
  deliver_scheduled codec d now s = elim (deliverer.validate d s.world) [
    | some e ↦ (err (invalid e), s)
    | none ↦ deliver_now d (build_preview codec "" d) now s
  ]
