-- ===== src/Bridge/Ingest/History/Housed.antt =====
-- The writes of internal/bridge/events.go: every message comes after a write of its chat.
use whatsapp_connect_mcp.Prelude.{
  String, Bool, true, List, [], ◌∷◌, ◌++◌, ◌==◌, ◌≡◌, refl, arith, eq_iff, contains, map, All-map,
  ◌∙◌, Bool-cases, inl, inr, ◌||◌,
}
use whatsapp_connect_mcp.Prelude.Int.{ℤ}
use whatsapp_connect_mcp.Prelude.Table.{upsert, update, All-upsert, All-update}
use whatsapp_connect_mcp.Store.Types.{Chat, Stored, Db}
use whatsapp_connect_mcp.Store.Ingest.{
  is_chat, bump, merge_chat, new_chat, upsert_chat, upsert_message, upsert_contact,
  upsert_lid_mapping, mark_read, insert_call,
}
use whatsapp_connect_mcp.Store.Ingest.Laws.{Write, chat, message, apply, apply_all}
use whatsapp_connect_mcp.Store.Fold.Settled.{chat_jids, Housed}

-- Every message among the writes is in a chat that an earlier write names, or that is known.
abbrev pub Follows : List String → List Write → Type 0
Follows known [] = Unit
Follows known (chat jid name is_group at ∷ ws) = Follows (jid ∷ known) ws
Follows known (message m ∷ ws) = (contains known m.chat_jid ≡ true) × Follows known ws
Follows known (_ ∷ ws) = Follows known ws

-- The chats named by `known` are among those of `jids`.
abbrev pub Within : List String → List String → Type 0
Within known jids = (k : String) → contains known k ≡ true → contains jids k ≡ true

contains-update :
    (jid : String) (at : ℤ) (cs : List Chat) (k : String)
    → contains (map (λ c. c.jid) (update (is_chat jid) (bump at) cs)) k
      ≡ contains (map (λ c. c.jid) cs) k
unfolding update
contains-update jid at [] k = refl
contains-update jid at (c ∷ cs) k = ground (arith, contains-update jid at cs k)

contains-upsert :
    (jid name : String) (is_group : Bool) (at : ℤ) (cs : List Chat) (k : String)
    → contains
        (map
          (λ c. c.jid)
          (upsert (is_chat jid) (merge_chat name is_group at) (new_chat jid name is_group at) cs))
        k
      ≡ ((jid == k) || contains (map (λ c. c.jid) cs) k)
unfolding upsert
contains-upsert jid name is_group at [] k = ground arith
contains-upsert jid name is_group at (c ∷ cs) k = ground (
  arith,
  contains-upsert jid name is_group at cs k,
  eq_iff c.jid jid,
  eq_iff jid k,
  eq_iff c.jid k,
)

Follows-weaken :
    (known more : List String) (ws : List Write)
    → Within known more
    → Follows known ws
    → Follows more ws
Follows-weaken known more [] h f = tt
Follows-weaken known more (Write.chat jid name is_group at ∷ ws) h f =
    Follows-weaken (jid ∷ known) (jid ∷ more) ws (λ k p. ground (arith, h k, p)) f
Follows-weaken known more (Write.message m ∷ ws) h f =
    (h m.chat_jid f.0, Follows-weaken known more ws h f.1)
Follows-weaken known more (Write.contact a b c d e ∷ ws) h f = Follows-weaken known more ws h f
Follows-weaken known more (Write.lid_mapping a b ∷ ws) h f = Follows-weaken known more ws h f
Follows-weaken known more (Write.reads a b c ∷ ws) h f = Follows-weaken known more ws h f
Follows-weaken known more (Write.call a ∷ ws) h f = Follows-weaken known more ws h f

pub Follows-append :
    (known : List String) (xs ys : List Write)
    → Follows known xs
    → Follows [] ys
    → Follows known (xs ++ ys)
Follows-append known [] ys f g = Follows-weaken [] known ys (λ k p. absurd (ground (arith, p))) g
Follows-append known (Write.chat jid name is_group at ∷ xs) ys f g =
    Follows-append (jid ∷ known) xs ys f g
Follows-append known (Write.message m ∷ xs) ys f g = (f.0, Follows-append known xs ys f.1 g)
Follows-append known (Write.contact a b c d e ∷ xs) ys f g = Follows-append known xs ys f g
Follows-append known (Write.lid_mapping a b ∷ xs) ys f g = Follows-append known xs ys f g
Follows-append known (Write.reads a b c ∷ xs) ys f g = Follows-append known xs ys f g
Follows-append known (Write.call a ∷ xs) ys f g = Follows-append known xs ys f g

mapping-same :
    (lid pn : String) (db : Db)
    → ((upsert_lid_mapping lid pn db).chats ≡ db.chats)
      × ((upsert_lid_mapping lid pn db).messages ≡ db.messages)
unfolding upsert_lid_mapping
mapping-same lid pn db = elim (Bool-cases (lid == "" || pn == "")) [
  | inl e ↦ rw e (refl, refl)
  | inr e ↦ rw e (refl, refl)
]

reads-Housed :
    (jid : String) (ids : List String) (at : ℤ) (db : Db)
    → Housed db
    → ((mark_read jid ids at db).chats ≡ db.chats) × Housed (mark_read jid ids at db)
unfolding mark_read
reads-Housed jid [] at db h = (refl, h)
reads-Housed jid (i ∷ ids) at db h = (
  refl,
  All-update (λ m. contains (chat_jids db) m.chat_jid ≡ true)
      (λ m. contains (chat_jids db) m.chat_jid ≡ true) _ _ (λ m p q. p) (λ m p q. p) db.messages h,
)

-- Writes in such an order leave every message in a chat that has a row.
pub apply_all-Housed :
    (ws : List Write) (known : List String) (db : Db)
    → Follows known ws
    → Within known (chat_jids db)
    → Housed db
    → Housed (apply_all ws db)
unfolding apply_all apply upsert_chat upsert_message upsert_contact insert_call
apply_all-Housed [] known db f w h = h
apply_all-Housed (Write.chat jid name is_group at ∷ ws) known db f w h =
    let same = contains-upsert jid name is_group at db.chats in
    apply_all-Housed ws (jid ∷ known) (upsert_chat jid name is_group at db) f
      (λ k p. ground (arith, same k, w k, p))
      (All-map (λ m p. ground (arith, same m.chat_jid, p)) db.messages h)
apply_all-Housed (Write.message m ∷ ws) known db f w h =
    let same = contains-update m.chat_jid m.ts db.chats in
    let P : Stored → Type 0 = λ x. contains (chat_jids (upsert_message m db)) x.chat_jid ≡ true in
    let here = same m.chat_jid ∙ w m.chat_jid f.0 in
    apply_all-Housed ws known (upsert_message m db) f.1 (λ k p. same k ∙ w k p)
      (All-upsert P _ _ _ here (λ x p. here) db.messages
        (All-map (λ x p. same x.chat_jid ∙ p) db.messages h))
apply_all-Housed (Write.contact a b c d e ∷ ws) known db f w h =
    apply_all-Housed ws known (upsert_contact a b c d e db) f w h
apply_all-Housed (Write.lid_mapping lid pn ∷ ws) known db f w h =
    let (chats, messages) = mapping-same lid pn db in
    apply_all-Housed ws known (upsert_lid_mapping lid pn db) f (rw chats w) (rw (chats, messages) h)
apply_all-Housed (Write.reads jid ids at ∷ ws) known db f w h =
    let (chats, housed) = reads-Housed jid ids at db h in
    apply_all-Housed ws known (mark_read jid ids at db) f (rw chats w) housed
apply_all-Housed (Write.call x ∷ ws) known db f w h =
    apply_all-Housed ws known (insert_call x db) f w h
