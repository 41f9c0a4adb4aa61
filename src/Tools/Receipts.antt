-- ===== src/Tools/Receipts.antt =====
-- markRead of internal/mcpserv/send_tools.go: one read receipt for each sender, never drafted.
use whatsapp_connect_mcp.Prelude.{
  ℕ, suc, ◌≤◌, String, some, List, [], ◌∷◌, ◌≡◌, ◌⊎◌, refl, Result, ok, err, arith, length, take,
  Option-cases, Bool-cases, Result-cases, inl, subst, inr,
}
use whatsapp_connect_mcp.Prelude.Text.{join}
use whatsapp_connect_mcp.Access.ScopedStore.{StoreApi}
use whatsapp_connect_mcp.Gate.Types.{
  Delivery, delivery, SendResult, Error, invalid, rate_limited, Deliverer, Limiter, State,
}
use whatsapp_connect_mcp.Gate.Render.{Codec}
use whatsapp_connect_mcp.Gate.Ops.{Moment, submit, deliver_now, always_drafts, send, report}
use whatsapp_connect_mcp.Tools.Banner.{banner}
use whatsapp_connect_mcp.Tools.Send.{ToolError, refused, bad_argument, resolve_message_author}
use whatsapp_connect_mcp.Tools.Calls.{naming}
use whatsapp_connect_mcp.Tools.Groups.{SenderGroup, group_message_ids_by_sender}

pub record MarkReadInput : Type 0 where
  pub chat_jid : String
  pub message_ids : List String

abbrev pub receipt : String → SenderGroup → Delivery
receipt chat_jid g = record (delivery "read" chat_jid) {
  message_ids = some g.ids;
  author = g.sender;
}

-- What one round of the loop adds to the rounds behind it.
abbrev pub receipt_sent :
    {S : Type 0}
    → Result Error SendResult × S
    → Result ToolError (List String) × S
    → Result ToolError (List String) × S
receipt_sent (err e, s) rest = (err (refused e), s)
receipt_sent (ok r, s) (err e, t) = (err e, t)
receipt_sent (ok r, s) (ok previews, t) = (ok (r.preview ∷ previews), t)

abbrev answered : {S : Type 0} → Result ToolError (List String) × S → Result ToolError String × S
answered (ok previews, s) = (ok (banner (join "\n" previews)), s)
answered (err e, s) = (err e, s)

module _ {W L : Type 0} (deliverer : Deliverer W) (limits : Limiter L) (per_seconds : ℕ)
    (codec : Codec) (st : StoreApi) (moments : ℕ → Moment) where
  -- The loop over the groups, the n-th of which is submitted at the n-th moment.
  unfoldable pub send_receipts :
      String → ℕ → List SenderGroup → State W L → Result ToolError (List String) × State W L
  send_receipts chat_jid n [] s = (ok [], s)
  send_receipts chat_jid n (g ∷ gs) s =
      let p =
        submit deliverer limits per_seconds codec (naming st (moments n)) (receipt chat_jid g) ""
          s in
      receipt_sent p (send_receipts chat_jid (suc n) gs p.1)

  abbrev grouped :
      String → Result ToolError (List SenderGroup) → State W L → Result ToolError String × State W L
  grouped chat_jid (err e) s = (err e, s)
  grouped chat_jid (ok gs) s = answered (send_receipts chat_jid 0 gs s)

  unfoldable pub mark_read : MarkReadInput → State W L → Result ToolError String × State W L
  mark_read i s = elim i.message_ids [
    | [] ↦ (err (bad_argument "message_ids is required"), s)
    | id ∷ ids ↦
        grouped i.chat_jid
          (group_message_ids_by_sender (resolve_message_author st i.chat_jid) (id ∷ ids)) s
  ]

-- What the receipts for these groups, one after the other, make of the world.
unfoldable pub deliver_all : {W : Type 0} → Deliverer W → String → List SenderGroup → W → W
deliver_all deliverer chat_jid [] w = w
deliver_all deliverer chat_jid (g ∷ gs) w =
    deliver_all deliverer chat_jid gs (deliverer.deliver (receipt chat_jid g) w).1

module _ {W L : Type 0} (deliverer : Deliverer W) (limits : Limiter L) (per_seconds : ℕ)
    (codec : Codec) (chat_jid : String) where
  abbrev Outcome : SenderGroup → State W L → Result Error SendResult × State W L → Type 0
  Outcome g s p =
      ((e : Error) × (p.0 ≡ err e) × (p.1.world ≡ s.world))
      ⊎ (p.1.world ≡ (deliverer.deliver (receipt chat_jid g) s.world).1)

  submit-Outcome :
      (m : Moment) (g : SenderGroup) (s : State W L)
      → Outcome g s (submit deliverer limits per_seconds codec m (receipt chat_jid g) "" s)
  unfolding submit deliver_now send report always_drafts
  submit-Outcome m g s = elim (Option-cases (deliverer.validate (receipt chat_jid g) s.world)) [
    | inr (e, v) ↦ inl (invalid e, ground (arith, v), ground (arith, v))
    | inl v ↦ elim (Bool-cases (limits.allow_n m.now s.limiter).0) [
      | inl allowed ↦ inr (ground (arith, v, allowed))
      | inr denied ↦
          inl (rate_limited per_seconds, ground (arith, v, denied), ground (arith, v, denied))
    ]
  ]

  -- How far a run of the loop came: so many receipts were delivered, all of them if it answers.
  record CameTo (gs : List SenderGroup) (s : State W L)
      (p : Result ToolError (List String) × State W L) : Type 0 where
    made : ℕ
    within : made ≤ length gs
    world : p.1.world ≡ deliver_all deliverer chat_jid (take made gs) s.world
    whole : (previews : List String) → p.0 ≡ ok previews → made ≡ length gs

  CameTo-cons :
      (g : SenderGroup) (gs : List SenderGroup) (s : State W L)
      (p : Result Error SendResult × State W L) (rest : Result ToolError (List String) × State W L)
      → Outcome g s p
      → CameTo gs p.1 rest
      → CameTo (g ∷ gs) s (receipt_sent p rest)
  unfolding deliver_all
  CameTo-cons g gs s (err e, t) rest (inl (e', failed, same)) c = record {
    made = 0;
    within = omega arith;
    world = same;
    whole = λ ps a. ground arith;
  }
  CameTo-cons g gs s (ok r, t) rest (inl (e', failed, same)) c = absurd (ground (arith, failed))
  CameTo-cons g gs s (err e, t) rest (inr sent) c = record {
    made = 1;
    within = omega arith;
    world = sent;
    whole = λ ps a. ground arith;
  }
  CameTo-cons g gs s (ok r, t) (err e, u) (inr sent) c = record {
    made = suc c.made;
    within = omega (arith, c.within);
    world = subst (λ w. u.world ≡ deliver_all deliverer chat_jid (take c.made gs) w) sent c.world;
    whole = λ ps a. ground arith;
  }
  CameTo-cons g gs s (ok r, t) (ok previews, u) (inr sent) c = record {
    made = suc c.made;
    within = omega (arith, c.within);
    world = subst (λ w. u.world ≡ deliver_all deliverer chat_jid (take c.made gs) w) sent c.world;
    whole = λ ps a. omega (arith, c.whole previews refl);
  }

  abbrev pub Delivers :
      List SenderGroup → ℕ → State W L → Result ToolError String × State W L → Type 0
  Delivers gs made s p =
      (made ≤ length gs)
      × (p.1.world ≡ deliver_all deliverer chat_jid (take made gs) s.world)
      × ((text : String) → p.0 ≡ ok text → made ≡ length gs)

  CameTo-Delivers :
      (gs : List SenderGroup) (s : State W L) (p : Result ToolError (List String) × State W L)
      → (c : CameTo gs s p) → Delivers gs c.made s (answered p)
  CameTo-Delivers gs s (ok ps, t) c = (c.within, c.world, λ text a. c.whole ps refl)
  CameTo-Delivers gs s (err e, t) c = (c.within, c.world, λ text a. ground arith)

  module _ (st : StoreApi) (moments : ℕ → Moment) where
    send_receipts-CameTo :
        (n : ℕ) (gs : List SenderGroup) (s : State W L)
        → CameTo gs s (send_receipts deliverer limits per_seconds codec st moments chat_jid n gs s)
    unfolding send_receipts deliver_all
    send_receipts-CameTo n [] s = record {
      made = 0;
      within = omega arith;
      world = refl;
      whole = λ ps e. refl;
    }
    send_receipts-CameTo n (g ∷ gs) s =
        let m = naming st (moments n) in
        let p = submit deliverer limits per_seconds codec m (receipt chat_jid g) "" s in
        CameTo-cons g gs s p _ (submit-Outcome m g s) (send_receipts-CameTo (suc n) gs p.1)

    -- Where mark_read answers, every group's receipt was delivered, and nothing else. Where it
    -- fails, it fails before any delivery, or after the receipts of the first groups only: they
    -- were delivered all the same.
    pub mark_read-Delivers :
        (ids : List String) (s : State W L)
        → let (answer, t) =
            mark_read deliverer limits per_seconds codec st moments
              (record { chat_jid = chat_jid; message_ids = ids })
              s in
          ((e : ToolError) × (answer ≡ err e) × (t ≡ s))
          ⊎ ((gs : List SenderGroup) × (made : ℕ) × (group_message_ids_by_sender
                  (resolve_message_author st chat_jid)
                  ids
                ≡ ok gs)
              × Delivers gs made s (answer, t))
    unfolding mark_read
    mark_read-Delivers [] s = inl (_, refl, refl)
    mark_read-Delivers (id ∷ ids) s =
        elim (Result-cases
          (group_message_ids_by_sender (resolve_message_author st chat_jid) (id ∷ ids))) [
            | inl (e, h) ↦ inl (e, rw h refl, rw h refl)
            | inr (gs, h) ↦
                let c = send_receipts-CameTo 0 gs s in
                inr (gs, c.made, h, rw h (CameTo-Delivers gs s _ c))
          ]
