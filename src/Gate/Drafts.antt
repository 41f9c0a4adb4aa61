-- ===== src/Gate/Drafts.antt =====
-- The draft store of internal/gate/gate.go: pruneExpiredLocked, evictOldestLocked,
-- storeDraftLocked and the listing loop of Drafts.
use whatsapp_connect_mcp.Prelude.{
  ℕ, ◌+◌, String, Bool, none, some, List, [], ◌∷◌, ◌++◌, ltb, leb, length, if◌then◌else◌,
}
use whatsapp_connect_mcp.Prelude.Dict.{Dict, lookup, remove, insert}
use whatsapp_connect_mcp.Gate.Types.{Delivery, DraftEntry, draft_ttl, draft_cap}

-- entry.expires.After(now)
abbrev pub is_live : ℕ → DraftEntry → Bool
is_live now e = ltb now e.expires

-- gate.DraftInfo
pub record DraftInfo : Type 0 where
  pub token : String
  pub preview : String
  pub expires : ℕ

-- A store of drafts: the map, and its tokens in insertion order.
pub record Book : Type 0 where
  pub drafts : Dict DraftEntry
  pub order : List String

-- Drops tokens from the front until the first live draft; recursion on the order.
unfoldable pub prune_from : ℕ → Dict DraftEntry → List String → Book
prune_from now drafts [] = record { drafts = drafts; order = [] }
prune_from now drafts (t ∷ ts) =
    let rest = prune_from now (remove t drafts) ts in
    elim (lookup t drafts) [
      | none ↦ rest
      | some e ↦ if is_live now e then record { drafts = drafts; order = t ∷ ts } else rest
    ]

unfoldable pub prune_expired : ℕ → Book → Book
prune_expired now b = prune_from now b.drafts b.order

unfoldable pub drop_front : Dict DraftEntry → List String → Book
drop_front drafts [] = record { drafts = drafts; order = [] }
drop_front drafts (t ∷ ts) = record { drafts = remove t drafts; order = ts }

unfoldable pub evict_oldest : Book → Book
unfolding drop_front
evict_oldest b = drop_front b.drafts b.order

-- `if len(g.order) >= draftCap { g.evictOldestLocked() }`
unfoldable pub make_room : Book → Book
make_room b = if leb draft_cap (length b.order) then evict_oldest b else b

unfoldable pub store_draft : ℕ → String → Delivery → String → Book → Book
store_draft now token d preview b =
    let room = make_room (prune_expired now b) in
    record {
      drafts =
          insert token (record { delivery = d; preview = preview; expires = now + draft_ttl })
            room.drafts;
      order = room.order ++ token ∷ [];
    }

-- The listing loop: tokens of the order that still have a draft, oldest first.
unfoldable pub list_infos : Dict DraftEntry → List String → List DraftInfo
list_infos drafts [] = []
list_infos drafts (t ∷ ts) =
    let rest = list_infos drafts ts in
    elim (lookup t drafts) [
      | none ↦ rest
      | some e ↦ record { token = t; preview = e.preview; expires = e.expires } ∷ rest
    ]
