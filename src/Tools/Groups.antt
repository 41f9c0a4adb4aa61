-- ===== src/Tools/Groups.antt =====
-- groupMessageIDsBySender of internal/mcpserv/send_tools.go: the messages of a mark_read call, one
-- group for each sender. Who wrote a message is a question to the store.
pub mod Positions
pub mod Exact
use whatsapp_connect_mcp.Prelude.{
  ℕ, zero, suc, String, Bool, true, false, Option, none, some, List, [], ◌∷◌, ◌++◌, ◌==◌, ◌≡◌, refl,
  if◌then◌else◌, Result, ok, err, arith, eq_iff, length, keep, contains, map, Result-cases,
  Option-cases, Bool-cases, inl, inr, subst, ap, sym, ◌⊎◌, ◌∙◌, contains-append,
}
use whatsapp_connect_mcp.Prelude.Dict.{Dict, lookup, insert, lookup-insert}

pub record SenderGroup : Type 0 where
  pub sender : String
  pub ids : List String

abbrev with_id : String → SenderGroup → SenderGroup
with_id id g = record g { ids = g.ids ++ (id ∷ []) }

-- groups[i].ids = append(groups[i].ids, id)
unfoldable pub add_at : ℕ → String → List SenderGroup → List SenderGroup
add_at i id [] = []
add_at zero id (g ∷ gs) = with_id id g ∷ gs
add_at (suc i) id (g ∷ gs) = g ∷ add_at i id gs

module _ {E : Type 0} (author : String → Result E String) where
  unfoldable pub group_loop : Dict ℕ → List SenderGroup → List String → Result E (List SenderGroup)
  unfolding add_at
  group_loop index groups [] = ok groups
  group_loop index groups (id ∷ ids) = elim (author id) [
    | err e ↦ err e
    | ok sender ↦ elim (lookup sender index) [
      | some i ↦ group_loop index (add_at i id groups) ids
      | none ↦
          group_loop (insert sender (length groups) index)
            (groups ++ (record { sender = sender; ids = id ∷ [] } ∷ [])) ids
    ]
  ]

  unfoldable pub group_message_ids_by_sender : List String → Result E (List SenderGroup)
  group_message_ids_by_sender ids = group_loop [] [] ids

  -- Whether the store names this sender for the message.
  abbrev pub is_from : String → String → Bool
  is_from x id = elim (author id) [ err e ↦ false | ok sender ↦ sender == x ]

-- The ids of the group that names the sender.
unfoldable pub ids_of : String → List SenderGroup → List String
ids_of x [] = []
ids_of x (g ∷ gs) = if g.sender == x then g.ids else ids_of x gs

abbrev pub senders : List SenderGroup → List String
senders gs = map (λ g. g.sender) gs

abbrev pub Distinct : List String → Type 0
Distinct [] = Unit
Distinct (x ∷ xs) = (contains xs x ≡ false) × Distinct xs

abbrev pub after_first : Option ℕ → Option ℕ
after_first none = none
after_first (some i) = some (suc i)
