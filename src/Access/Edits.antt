-- ===== src/Access/Edits.antt =====
-- The edits of the chat scope: cmd/whatsapp-connect-mcp/scope.go and
-- internal/dashboard/scope.go. Both write the settings back with config.SaveFor.
use whatsapp_connect_mcp.Prelude.{
  String, true, not, ◌&&◌, ◌||◌, List, [], ◌∷◌, ◌++◌, ◌==◌, ◌≡◌, refl, contains, contains-append,
  arith, keep, eq_iff, if◌then◌else◌, Bool-cases, inl, inr,
}
use whatsapp_connect_mcp.Prelude.Text.{text_le}
use whatsapp_connect_mcp.Prelude.Sorting.{sort_by, insert_by}
use whatsapp_connect_mcp.Access.Config.{Config, is_readable, scope_active}

-- scopeAllow, up to the write.
unfoldable pub scope_allow : String → Config → Config
scope_allow jid c =
    let c' = record c { chat_scope = "allowlist" } in
    if not (is_readable c' jid)
    then record c' { readable_chats = sort_by text_le (c.readable_chats ++ (jid ∷ [])) }
    else c'

-- scopeDeny, and handleScopeRemove of the dashboard.
unfoldable pub scope_deny : String → Config → Config
scope_deny jid c = record c { readable_chats = keep (λ x. not (x == jid)) c.readable_chats }

-- scopeAll
abbrev pub scope_all : Config → Config
scope_all c = record c { chat_scope = "all" }

contains-insert_by :
    (x : String) (xs : List String) (k : String)
    → contains (insert_by text_le x xs) k ≡ (x == k || contains xs k)
unfolding insert_by
contains-insert_by x [] k = refl
contains-insert_by x (y ∷ ys) k = elim (Bool-cases (text_le x y)) [
  | inl e ↦ rw e refl
  | inr e ↦ rw e (ground (arith, contains-insert_by x ys k))
]

contains-sort_by : (xs : List String) (k : String) → contains (sort_by text_le xs) k ≡ contains xs k
unfolding sort_by
contains-sort_by [] k = refl
contains-sort_by (x ∷ xs) k =
    rw (contains-insert_by x (sort_by text_le xs) k) (ground (arith, contains-sort_by xs k))

contains-keep_other :
    (jid : String) (xs : List String) (k : String)
    → contains (keep (λ x. not (x == jid)) xs) k ≡ (contains xs k && not (k == jid))
contains-keep_other jid [] k = refl
contains-keep_other jid (x ∷ xs) k =
    ground (arith, contains-keep_other jid xs k, eq_iff x k, eq_iff x jid, eq_iff k jid)

-- With the allowlist on, denying a chat leaves exactly the others that were readable; and after
-- allowing a chat exactly it and the listed ones are, whatever the mode was.
pub edits_exact :
    (c : Config) (jid other : String)
    → (c.chat_scope ≡ "allowlist"
        → is_readable (scope_deny jid c) other ≡ (is_readable c other && not (other == jid)))
      × (is_readable (scope_allow jid c) other ≡ (contains c.readable_chats other || other == jid))
unfolding scope_deny scope_allow is_readable scope_active
edits_exact c jid other = (
  λ on. rw on (contains-keep_other jid c.readable_chats other),
  elim (Bool-cases (contains c.readable_chats jid)) [
    | inl e ↦ rw e (ground (arith, e, eq_iff other jid))
    | inr e ↦
        rw (e, contains-sort_by (c.readable_chats ++ (jid ∷ [])) other)
          (rw (contains-append c.readable_chats (jid ∷ []) other)
            (ground (arith, eq_iff other jid, eq_iff jid other)))
  ],
)

-- Settings of an older version carry a list and no mode, which is an allowlist. Denying the only
-- chat of such a list turns the limit off: every chat, the denied one too, becomes readable.
pub deny_last_opens :
    (c : Config) (jid other : String)
    → c.chat_scope ≡ ""
    → c.readable_chats ≡ jid ∷ []
    → (scope_active c ≡ true) × (is_readable (scope_deny jid c) other ≡ true)
unfolding scope_deny is_readable scope_active
deny_last_opens c jid other no_mode one = rw (no_mode, one) (refl, ground (arith, eq_iff jid jid))
