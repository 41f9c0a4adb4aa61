-- ===== src/Schedule/Persistence.antt =====
-- What internal/schedule/schedule.go keeps across restarts, and the order in which it lists.
use mathlib.Core.List.{Perm}
use whatsapp_connect_mcp.Prelude.{
  String, Bool, true, false, not, Option, List, [], ◌∷◌, ◌++◌, ◌≡◌, refl, arith, ok, keep,
}
use whatsapp_connect_mcp.Prelude.Int.{ℤ}
use whatsapp_connect_mcp.Prelude.Sorting.{Sorted, sort_by-Sorted, sort_by-perm}
use whatsapp_connect_mcp.Gate.Types.{Delivery}
use whatsapp_connect_mcp.Schedule.Store.{
  Entry, holds, Store, persist, load, add, list, is_missed, sooner,
}

-- List answers every pending entry once, the soonest first.
pub list-Sorted : (s : Store) → Perm (list s) s.entries × Sorted sooner (list s)
unfolding list
list-Sorted s = (
  sort_by-perm sooner s.entries,
  sort_by-Sorted sooner (λ x y h. ground arith) (λ x y z h k. ground arith) s.entries,
)

keep-keep : (p : Entry → Bool) (es : List Entry) → keep p (keep p es) ≡ keep p es
keep-keep p [] = refl
keep-keep p (e ∷ es) = ground (arith, keep-keep p es)

-- Nothing dropped means that everything was kept.
keep_all : (p : Entry → Bool) (es : List Entry) → keep p es ≡ [] → keep (λ e. not (p e)) es ≡ es
keep_all p [] h = refl
keep_all p (e ∷ es) h = ground (arith, keep_all p es)

-- Load of a file of entries, where it succeeds: the pending entries are those of the file that
-- are not more than the grace late, in the file's order; the others are answered as dropped; and
-- the file then holds exactly the pending ones.
pub load_exact :
    (writable : Bool) (es : List Entry) (now : ℤ) {s : Store} {dropped : List Entry}
    → load writable (holds es) now ≡ ok (s, dropped)
    → (s.entries ≡ keep (λ e. not (is_missed now e)) es)
      × (dropped ≡ keep (is_missed now) es)
      × (s.file ≡ holds s.entries)
unfolding load persist
load_exact true es now {s} {dropped} h = loads (keep (is_missed now) es) refl
  where
    loads :
        (late : List Entry)
        → keep (is_missed now) es ≡ late
        → (s.entries ≡ keep (λ e. not (is_missed now e)) es)
          × (dropped ≡ keep (is_missed now) es)
          × (s.file ≡ holds s.entries)
    loads [] p = ground (arith, keep_all (is_missed now) es p)
    loads (x ∷ xs) p = ground arith
load_exact false es now {s} {dropped} h = loads (keep (is_missed now) es) refl
  where
    loads :
        (late : List Entry)
        → keep (is_missed now) es ≡ late
        → (s.entries ≡ keep (λ e. not (is_missed now e)) es)
          × (dropped ≡ keep (is_missed now) es)
          × (s.file ≡ holds s.entries)
    loads [] p = ground (arith, keep_all (is_missed now) es p)
    loads (x ∷ xs) p = ground arith

-- After an Add that answers an entry, a restart at a time when no pending entry is late beyond
-- the grace loads the pending entries, the new one last, and drops none.
pub restart_after_add :
    (writable readable : Bool) (id : Option String) (created : ℤ) (d : Delivery) (preview : String)
    (s : Store) (now : ℤ) {e : Entry}
    → (add writable id created d preview s).0 ≡ ok e
    → keep (is_missed now) (add writable id created d preview s).1.entries ≡ []
    → let s' = (add writable id created d preview s).1 in
      load readable s'.file now
      ≡ ok (record { file = s'.file; entries = s.entries ++ e ∷ []; changed = false }, [])
unfolding load add
restart_after_add writable readable id created d preview s now h none_late =
    ground
      (arith, keep_all (is_missed now) (add writable id created d preview s).1.entries none_late)
