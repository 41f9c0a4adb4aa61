-- ===== src/Store/Poll/Order.antt =====
-- The writes of internal/store/ingest.go and the order of the rowids, which the cursor of
-- MessagesAfterRowID relies on.
use whatsapp_connect_mcp.Prelude.{
  Bool, true, List, [], ◌∷◌, ◌≡◌, refl, arith, All, All-map, Bool-cases, inl, inr, ltb, contains,
  ◌==◌, ◌&&◌, ◌||◌,
}
use whatsapp_connect_mcp.Prelude.Table.{upsert, update, All-upsert, All-update}
use whatsapp_connect_mcp.Store.Types.{Stored, Db}
use whatsapp_connect_mcp.Store.Ingest.{
  upsert_chat, upsert_message, upsert_contact, upsert_lid_mapping, mark_read, insert_call,
  next_rowid, is_message,
}
use whatsapp_connect_mcp.Store.Ingest.Laws.{Write, apply, apply_all}
use whatsapp_connect_mcp.Store.Poll.{Ascending}

next_rowid_above : (ms : List Stored) → All (λ x. ltb x.rowid (next_rowid ms) ≡ true) ms
unfolding next_rowid
next_rowid_above [] = tt
next_rowid_above (m ∷ ms) =
    (ground arith, All-map (λ x p. ground (arith, p)) ms (next_rowid_above ms))

module _ (p : Stored → Bool) (change : Stored → Stored)
    (same : (x : Stored) → (change x).rowid ≡ x.rowid) where
  upsert-Ascending :
      (new : Stored) (ms : List Stored)
      → All (λ x. ltb x.rowid new.rowid ≡ true) ms
      → Ascending ms
      → Ascending (upsert p change new ms)
  unfolding upsert
  upsert-Ascending new [] above h = (tt, tt)
  upsert-Ascending new (m ∷ ms) above h = elim (Bool-cases (p m)) [
    | inl e ↦ rw e (All-map (λ x q. ground (arith, q, same m)) ms h.0, h.1)
    | inr e ↦ rw e (
      All-upsert (λ x. ltb m.rowid x.rowid ≡ true) p change new above.0
          (λ x q. ground (arith, q, same x)) ms h.0,
      upsert-Ascending new ms above.1 h.1,
    )
  ]

  update-Ascending : (ms : List Stored) → Ascending ms → Ascending (update p change ms)
  unfolding update
  update-Ascending [] h = tt
  update-Ascending (m ∷ ms) h = elim (Bool-cases (p m)) [
    | inl e ↦ rw e (
      All-update (λ x. ltb m.rowid x.rowid ≡ true) (λ x. ltb (change m).rowid x.rowid ≡ true) p
          change (λ x q r. ground (arith, q, same x, same m)) (λ x q r. ground (arith, q, same m))
          ms h.0,
      update-Ascending ms h.1,
    )
    | inr e ↦ rw e (
      All-update (λ x. ltb m.rowid x.rowid ≡ true) (λ x. ltb m.rowid x.rowid ≡ true) p change
          (λ x q r. ground (arith, q, same x)) (λ x q r. q) ms h.0,
      update-Ascending ms h.1,
    )
  ]

apply-Ascending : (w : Write) (db : Db) → Ascending db.messages → Ascending (apply w db).messages
unfolding apply upsert_chat upsert_message upsert_contact upsert_lid_mapping mark_read insert_call
apply-Ascending (Write.chat jid name g at) db h = h
apply-Ascending (Write.message m) db h =
    upsert-Ascending (is_message m.chat_jid m.id) (λ old. record old { message = m }) (λ x. refl) _
      db.messages (next_rowid_above db.messages) h
apply-Ascending (Write.contact jid phone push full business) db h = h
apply-Ascending (Write.lid_mapping lid pn) db h = elim (Bool-cases (lid == "" || pn == "")) [
  | inl e ↦ rw e h
  | inr e ↦ rw e h
]
apply-Ascending (Write.reads jid [] at) db h = h
apply-Ascending (Write.reads jid (i ∷ ids) at) db h =
    update-Ascending (λ m. m.chat_jid == jid && contains (i ∷ ids) m.id) _ (λ x. refl) db.messages h
apply-Ascending (Write.call c) db h = h

-- Whatever is ingested, in whatever order, the messages stay in the order of their rowids, and no
-- two have the same one.
pub ingest-Ascending :
    (ws : List Write) (db : Db) → Ascending db.messages → Ascending (apply_all ws db).messages
unfolding apply_all
ingest-Ascending [] db h = h
ingest-Ascending (w ∷ ws) db h = ingest-Ascending ws (apply w db) (apply-Ascending w db h)
