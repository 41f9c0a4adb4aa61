-- ===== src/Bridge/Ingest/Taught.antt =====
-- What ingestMessage of internal/bridge/events.go teaches the cache of LIDs.
use whatsapp_connect_mcp.Prelude.{
  String, true, false, not, ◌||◌, Option, none, some, ◌==◌, ◌≡◌, refl, arith, eq_iff, Bool-cases,
  inl, inr, ◌⊎◌, false, ap, sym, ◌∙◌,
}
use whatsapp_connect_mcp.Prelude.Dict.{Dict, lookup, insert, lookup-insert}
use whatsapp_connect_mcp.Bridge.Addresses.{
  Addresses, IsAddresses, Session, MessageSource, is_hidden, is_phone, key, phone_jid, remember_lid,
  chat_pairing,
}
use whatsapp_connect_mcp.Bridge.Addresses.Stable.{phone_jid-cached, alt_not_hidden, bare_named}
use whatsapp_connect_mcp.Bridge.Ingest.{
  Host, MessageEvent, remember_chat, remember_sender, learn, lid_pairing, ingest_message,
}

module _ {J : Type 0} (a : Addresses J) (laws : IsAddresses a) (session : Session J) where
  -- The cache has a number for a LID.
  abbrev pub Known : Dict J → J → Type 0
  Known c j = (v : J) × (lookup (key a j) c ≡ some v)

  -- The LIDs that a message itself pairs with a number: its sender's by the other address of the
  -- sender, and in a direct chat the chat's by the other address of the recipient.
  abbrev pub IsPaired : MessageSource J → J → Type 0
  IsPaired src lid =
      (is_hidden a lid ≡ true)
      × ((((lid ≡ src.sender) × (is_phone a src.sender_alt ≡ true))
            ⊎ ((lid ≡ src.sender_alt) × (is_phone a src.sender ≡ true)))
          ⊎ ((src.is_group ≡ false)
              × ((a.is_empty src.recipient_alt ≡ false)
                  × (((lid ≡ src.chat) × (is_phone a src.recipient_alt ≡ true))
                      ⊎ ((lid ≡ src.recipient_alt) × (is_phone a src.chat ≡ true))))))

  remember_lid-Known : (lid pn j : J) (c : Dict J) → Known c j → Known (remember_lid a lid pn c) j
  unfolding remember_lid
  remember_lid-Known lid pn j c (v, h) =
      elim (Bool-cases (not (is_hidden a lid) || not (is_phone a pn))) [
        | inl skip ↦ rw skip (v, h)
        | inr kept ↦ rw kept (inserted (key a lid) (key a j) (a.to_non_ad pn) v c h)
      ]
    where
      inserted :
          (u k : String) (x y : J) (d : Dict J)
          → lookup k d ≡ some y
          → (z : J) × (lookup k (insert u x d) ≡ some z)
      inserted u k x y d e = elim (Bool-cases (u == k)) [
        | inl s ↦ (x, rw (lookup-insert u k x d, s) refl)
        | inr s ↦ (y, rw (lookup-insert u k x d, s) e)
      ]

  remember_lid-learns :
      (lid pn j : J) (c : Dict J)
      → is_hidden a lid ≡ true
      → is_phone a pn ≡ true
      → key a lid ≡ key a j
      → Known (remember_lid a lid pn c) j
  unfolding remember_lid
  remember_lid-learns lid pn j c hid phone same =
      let kept : (not (is_hidden a lid) || not (is_phone a pn)) ≡ false =
        ground (arith, hid, phone) in
      let e : key a lid == key a j ≡ true = (eq_iff (key a lid) (key a j)).1 same in
      rw (kept, lookup-insert (key a lid) (key a j) (a.to_non_ad pn) c, e) (a.to_non_ad pn, refl)

  remember_chat-Known :
      (o : Option (J × J)) (j : J) (c : Dict J) → Known c j → Known (remember_chat a o c) j
  remember_chat-Known none j c h = h
  remember_chat-Known (some (lid, phone)) j c h = remember_lid-Known lid phone j c h

  remember_sender-Known :
      (src : MessageSource J) (pn : String) (j : J) (c : Dict J)
      → Known c j
      → Known (remember_sender a src pn c) j
  remember_sender-Known src pn j c h = elim (Bool-cases (pn == "")) [
    | inl e ↦ rw e h
    | inr e ↦ rw e (
        remember_lid-Known src.sender_alt src.sender j _
          (remember_lid-Known src.sender src.sender_alt j c h))
  ]

  learn-Known : (src : MessageSource J) (j : J) (c : Dict J) → Known c j → Known (learn a src c) j
  unfolding learn
  learn-Known src j c h =
      remember_chat-Known (chat_pairing a src) j _ (remember_sender-Known src _ j c h)

  pub phone_jid-Known : (j k : J) (c : Dict J) → Known c k → Known (phone_jid a session j c).1 k
  phone_jid-Known j k c (v, h) = (v, phone_jid-cached a laws session (key a k) j c h)

  bare_key : (j : J) → key a (a.to_non_ad j) ≡ key a j
  bare_key j = ap a.user (laws.bare_bare j)

  sender_named :
      (src : MessageSource J)
      → is_hidden a src.sender ≡ true
      → is_phone a src.sender_alt ≡ true
      → ((lid_pairing a src).1.1 == "") ≡ false
  unfolding lid_pairing
  sender_named src hid p = rw (hid, p) (bare_named a laws session src.sender_alt p)

  alt_named :
      (src : MessageSource J)
      → is_hidden a src.sender_alt ≡ true
      → is_phone a src.sender ≡ true
      → ((lid_pairing a src).1.1 == "") ≡ false
  unfolding lid_pairing
  alt_named src hid p =
      rw (alt_not_hidden a laws session src.sender p, hid, p)
        (bare_named a laws session src.sender p)

  chat_paired :
      (src : MessageSource J)
      → src.is_group ≡ false
      → a.is_empty src.recipient_alt ≡ false
      → is_hidden a src.chat ≡ true
      → is_phone a src.recipient_alt ≡ true
      → chat_pairing a src ≡ some (a.to_non_ad src.chat, a.to_non_ad src.recipient_alt)
  unfolding chat_pairing
  chat_paired src one some_alt hid p = rw (one, some_alt, hid, p) refl

  recipient_paired :
      (src : MessageSource J)
      → src.is_group ≡ false
      → a.is_empty src.recipient_alt ≡ false
      → is_hidden a src.recipient_alt ≡ true
      → is_phone a src.chat ≡ true
      → chat_pairing a src ≡ some (a.to_non_ad src.recipient_alt, a.to_non_ad src.chat)
  unfolding chat_pairing
  recipient_paired src one some_alt hid p =
      rw (one, some_alt, alt_not_hidden a laws session src.chat p, hid, p) refl

  bare_hidden : (j : J) → is_hidden a j ≡ true → is_hidden a (a.to_non_ad j) ≡ true
  bare_hidden j h = rw (laws.bare_server j) h

  bare_is_phone : (j : J) → is_phone a j ≡ true → is_phone a (a.to_non_ad j) ≡ true
  bare_is_phone j h = rw (laws.bare_server j) h

  learn-IsPaired :
      (src : MessageSource J) (c : Dict J) (lid : J) → IsPaired src lid → Known (learn a src c) lid
  unfolding learn
  learn-IsPaired src c lid (hid, inl (inl (e, p))) =
      let h : is_hidden a src.sender ≡ true = rw (← e) hid in
      remember_chat-Known (chat_pairing a src) lid _ (
        rw (sender_named src h p) (
          remember_lid-Known src.sender_alt src.sender lid _
            (remember_lid-learns src.sender src.sender_alt lid c h p (ap (key a) (sym e)))))
  learn-IsPaired src c lid (hid, inl (inr (e, p))) =
      let h : is_hidden a src.sender_alt ≡ true = rw (← e) hid in
      remember_chat-Known (chat_pairing a src) lid _ (
        rw (alt_named src h p)
          (remember_lid-learns src.sender_alt src.sender lid _ h p (ap (key a) (sym e))))
  learn-IsPaired src c lid (hid, inr (one, (some_alt, inl (e, p)))) =
      let h : is_hidden a src.chat ≡ true = rw (← e) hid in
      rw (chat_paired src one some_alt h p) (
        remember_lid-learns (a.to_non_ad src.chat) (a.to_non_ad src.recipient_alt) lid _
          (bare_hidden src.chat h) (bare_is_phone src.recipient_alt p)
          (bare_key src.chat ∙ ap (key a) (sym e)))
  learn-IsPaired src c lid (hid, inr (one, (some_alt, inr (e, p)))) =
      let h : is_hidden a src.recipient_alt ≡ true = rw (← e) hid in
      rw (recipient_paired src one some_alt h p) (
        remember_lid-learns (a.to_non_ad src.recipient_alt) (a.to_non_ad src.chat) lid _
          (bare_hidden src.recipient_alt h) (bare_is_phone src.chat p)
          (bare_key src.recipient_alt ∙ ap (key a) (sym e)))

  -- After a message the cache knows the LIDs that the message pairs with a number, and those that
  -- it knew before.
  pub ingest_message-learns :
      (host : Host) (e : MessageEvent J) (c : Dict J)
      → let d = (ingest_message a host session e c).1 in
        ((lid : J) → IsPaired e.source lid → Known d lid) × ((j : J) → Known c j → Known d j)
  unfolding ingest_message
  ingest_message-learns host e c =
      let learnt = learn a e.source c in
      let p = phone_jid a session e.source.chat learnt in
      let kept : (j : J) → Known learnt j → Known (phone_jid a session e.source.sender p.1).1 j =
        λ j h. phone_jid-Known e.source.sender j p.1 (phone_jid-Known e.source.chat j learnt h) in
      (
        λ lid h. kept lid (learn-IsPaired e.source c lid h),
        λ j h. kept j (learn-Known e.source j c h),
      )
