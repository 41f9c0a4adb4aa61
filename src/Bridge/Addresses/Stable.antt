-- ===== src/Bridge/Addresses/Stable.antt =====
-- The lookups of internal/bridge/lid.go over a cache that they fill.
use whatsapp_connect_mcp.Prelude.{
  String, true, false, none, some, List, [], ◌∷◌, ◌==◌, ◌≡◌, refl, arith, eq_iff, Option-cases,
  Bool-cases, inl, inr, ◌∙◌,
}
use whatsapp_connect_mcp.Prelude.Dict.{Dict, lookup, insert, lookup-insert}
use whatsapp_connect_mcp.Store.Types.{Db}
use whatsapp_connect_mcp.Store.Fold.{is_lid}
use whatsapp_connect_mcp.Store.Fold.Settled.{
  Settled, fold_lids_settles, fold_lids_resolves, Housed, Resolved,
}
use whatsapp_connect_mcp.Bridge.Addresses.{
  Addresses, IsAddresses, Session, is_hidden, is_phone, key, ask_session, phone_jid, phone_text,
  fold_lookup, bridge_fold_lids,
}

module _ {J : Type 0} (a : Addresses J) (laws : IsAddresses a) (session : Session J) where
  -- The cases of one lookup.
  pub phone_jid-hit :
      (j : J) (c : Dict J) {v : J}
      → is_hidden a j ≡ true
      → lookup (key a j) c ≡ some v
      → phone_jid a session j c ≡ (v, c)
  unfolding phone_jid
  phone_jid-hit j c h e = ground (arith, h, e)

  pub phone_jid-miss :
      (j : J) (c : Dict J)
      → is_hidden a j ≡ true
      → lookup (key a j) c ≡ none
      → ask_session a session (a.to_non_ad j) ≡ none
      → phone_jid a session j c ≡ (j, c)
  unfolding phone_jid
  phone_jid-miss j c h e s = ground (arith, h, e, s)

  pub phone_jid-asks :
      (j : J) (c : Dict J) {pn : J}
      → is_hidden a j ≡ true
      → lookup (key a j) c ≡ none
      → ask_session a session (a.to_non_ad j) ≡ some pn
      → phone_jid a session j c ≡ (pn, insert (key a j) pn c)
  unfolding phone_jid
  phone_jid-asks j c h e s = ground (arith, h, e, s)

  pub phone_jid-other :
      (j : J) (c : Dict J) → is_hidden a j ≡ false → phone_jid a session j c ≡ (j, c)
  unfolding phone_jid
  phone_jid-other j c h = ground (arith, h)

  same_answer :
      (k : J) (c d : Dict J)
      → lookup (key a k) c ≡ lookup (key a k) d
      → (phone_jid a session k c).0 ≡ (phone_jid a session k d).0
  unfolding phone_jid
  same_answer k c d h = ground (arith, h)

  after_asking :
      (j k : J) (c : Dict J) {pn : J}
      → is_hidden a j ≡ true
      → lookup (key a j) c ≡ none
      → ask_session a session (a.to_non_ad j) ≡ some pn
      → (phone_jid a session k (insert (key a j) pn c)).0 ≡ (phone_jid a session k c).0
  after_asking j k c {pn} h e s = elim (Bool-cases (is_hidden a k)) [
    | inr out ↦ rw (phone_jid-other k c out, phone_jid-other k (insert (key a j) pn c) out) refl
    | inl hid ↦ elim (Bool-cases (key a j == key a k)) [
      | inr other ↦
          same_answer k (insert (key a j) pn c) c
            (rw (lookup-insert (key a j) (key a k) pn c, other) refl)
      | inl same ↦
          let same' =
            laws.bare_unique j k ((eq_iff _ _).0 h) ((eq_iff _ _).0 hid) ((eq_iff _ _).0 same) in
          let hit =
            phone_jid-hit k (insert (key a j) pn c) {v = pn} hid
              (rw (lookup-insert (key a j) (key a k) pn c, same) refl) in
          let asks =
            phone_jid-asks k c {pn = pn} hid (rw (← (eq_iff _ _).0 same) e) (rw (← same') s) in
          rw (hit, asks) refl
    ]
  ]

  after_one :
      (j k : J) (c : Dict J)
      → (phone_jid a session k (phone_jid a session j c).1).0 ≡ (phone_jid a session k c).0
  after_one j k c = elim (Bool-cases (is_hidden a j)) [
    | inr out ↦ rw (phone_jid-other j c out) refl
    | inl hid ↦ elim (Option-cases (lookup (key a j) c)) [
      | inr (v, e) ↦ rw (phone_jid-hit j c hid e) refl
      | inl e ↦ elim (Option-cases (ask_session a session (a.to_non_ad j))) [
        | inl s ↦ rw (phone_jid-miss j c hid e s) refl
        | inr (pn, s) ↦ rw (phone_jid-asks j c hid e s) (after_asking j k c hid e s)
      ]
    ]
  ]

  -- The cache after these lookups.
  abbrev pub after_lookups : List J → Dict J → Dict J
  after_lookups [] c = c
  after_lookups (j ∷ js) c = after_lookups js (phone_jid a session j c).1

  -- The cache is invisible: whatever was looked up before, and is cached since, a lookup answers
  -- as it would have answered first.
  pub lookups_stable :
      (js : List J) (c : Dict J) (k : J)
      → (phone_jid a session k (after_lookups js c)).0 ≡ (phone_jid a session k c).0
  lookups_stable [] c k = refl
  lookups_stable (j ∷ js) c k = lookups_stable js (phone_jid a session j c).1 k ∙ after_one j k c

  -- What is cached stays cached.
  pub phone_jid-cached :
      (u : String) (j : J) (c : Dict J) {v : J}
      → lookup u c ≡ some v
      → lookup u (phone_jid a session j c).1 ≡ some v
  phone_jid-cached u j c h = elim (Bool-cases (is_hidden a j)) [
    | inr out ↦ rw (phone_jid-other j c out) h
    | inl hid ↦ elim (Option-cases (lookup (key a j) c)) [
      | inr (v, e) ↦ rw (phone_jid-hit j c hid e) h
      | inl e ↦ elim (Option-cases (ask_session a session (a.to_non_ad j))) [
        | inl s ↦ rw (phone_jid-miss j c hid e s) h
        | inr (pn, s) ↦
            rw (phone_jid-asks j c hid e s)
              (ground (arith, lookup-insert (key a j) u pn c, eq_iff (key a j) u, e, h))
      ]
    ]
  ]

  -- A phone JID is no LID, and its bare form has a text.
  pub alt_not_hidden : (j : J) → is_phone a j ≡ true → is_hidden a j ≡ false
  alt_not_hidden j h = rw ((eq_iff (a.server j) a.default_user_server).0 h) laws.servers_differ

  pub bare_named : (j : J) → is_phone a j ≡ true → (a.to_string (a.to_non_ad j) == "") ≡ false
  bare_named j h =
      laws.some_text (a.to_non_ad j)
        (laws.bare_server j ∙ (eq_iff (a.server j) a.default_user_server).0 h)

  phone_text-phone : (p pn : J) → is_lid (phone_text a p pn) ≡ false
  unfolding is_lid
  phone_text-phone p pn = elim (Bool-cases (is_hidden a p)) [
    | inr out ↦ rw out refl
    | inl hid ↦ elim (Bool-cases (is_phone a pn)) [
      | inr out ↦ rw (hid, out) refl
      | inl phone ↦ rw (hid, phone) (laws.phone_text pn ((eq_iff _ _).0 phone))
    ]
  ]

  fold_lookup-phone : (c : Dict J) (lid : String) → is_lid (fold_lookup a session c lid) ≡ false
  unfolding fold_lookup is_lid
  fold_lookup-phone c lid = elim (Option-cases (a.parse lid)) [
    | inl e ↦ let same : fold_lookup a session c lid ≡ "" = ground (arith, e) in rw same refl
    | inr (p, e) ↦
        let same : fold_lookup a session c lid ≡ phone_text a p (phone_jid a session p c).0 =
          ground (arith, e) in
        rw same (phone_text-phone p (phone_jid a session p c).0)
  ]

  -- The lookup that the bridge hands to FoldLIDs answers phone numbers only, whatever the session
  -- store and the cache hold: after it, no identity that the lookup could resolve is left.
  pub bridge_fold_settles :
      (c : Dict J) (db : Db)
      → Settled (fold_lookup a session c) db (bridge_fold_lids a session c db).0
  unfolding bridge_fold_lids
  bridge_fold_settles c db = fold_lids_settles (fold_lookup a session c) (fold_lookup-phone c) db

  pub bridge_fold_resolves :
      (c : Dict J) (db : Db)
      → Housed db
      → Resolved (fold_lookup a session c) (bridge_fold_lids a session c db).0
  unfolding bridge_fold_lids
  bridge_fold_resolves c db = fold_lids_resolves (fold_lookup a session c) (fold_lookup-phone c) db
