-- ===== src/Schedule/Store.antt =====
-- internal/schedule/schedule.go: the persistent set of pending schedules. The file is the list
-- that the last successful write left (its JSON is Go's encoding of that list); whether a write
-- succeeds, and the random bytes of an id, come with the call.
use whatsapp_connect_mcp.Prelude.{
  String, Bool, true, false, not, Option, none, some, List, [], ◌∷◌, ◌++◌, ◌==◌, keep,
  if◌then◌else◌, Result, ok, err,
}
use whatsapp_connect_mcp.Prelude.Int.{ℤ, pos, ◌-ℤ◌, ltb_ℤ, leb_ℤ}
use whatsapp_connect_mcp.Prelude.Sorting.{sort_by}
use whatsapp_connect_mcp.Gate.Types.{Delivery}

pub record Entry : Type 0 where
  pub id : String
  pub delivery : Delivery
  pub preview : String
  pub created : ℤ

-- What os.ReadFile and json.Unmarshal make of schedules.json.
pub data File : Type 0 where
  missing unreadable malformed : File
  holds : List Entry → File

pub data StoreError : Type 0 where
  read_failed parse_failed no_randomness write_failed : StoreError

-- `changed` says whether a wake-up waits in the channel, which holds one.
pub record Store : Type 0 where
  pub file : File
  pub entries : List Entry
  pub changed : Bool

-- Seconds.
abbrev pub missed_grace : ℤ
missed_grace = pos 900

-- persistLocked: a temporary file renamed over the old one, so a failed write leaves that alone.
unfoldable pub persist : Bool → Store → Result StoreError (Unit {0}) × Store
persist true s = (ok tt, record s { file = holds s.entries })
persist false s = (err write_failed, s)

-- The loop of Load: what is kept and what is dropped as missed.
unfoldable pub is_missed : ℤ → Entry → Bool
unfolding ◌-ℤ◌
is_missed now e = ltb_ℤ e.delivery.fire_at (now -ℤ missed_grace)

abbrev loaded :
    Store
    → List Entry
    → Result StoreError (Unit {0}) × Store
    → Result StoreError (Store × List Entry)
loaded s dropped (ok u, s') = ok (s', dropped)
loaded s dropped (err e, s') = err e

-- `now` is in Unix seconds, the only form in which Load uses it.
unfoldable pub load : Bool → File → ℤ → Result StoreError (Store × List Entry)
unfolding persist
load writable missing now = ok (record { file = missing; entries = []; changed = false }, [])
load writable unreadable now = err read_failed
load writable malformed now = err parse_failed
load writable (holds es) now =
    let s : Store = record {
      file = holds es;
      entries = keep (λ e. not (is_missed now e)) es;
      changed = false;
    } in
    elim (keep (is_missed now) es) [
      | [] ↦ ok (s, [])
      | x ∷ xs ↦ loaded s (x ∷ xs) (persist writable s)
    ]

unfoldable pub notify : Store → Store
notify s = record s { changed = true }

abbrev added : Entry → Result StoreError (Unit {0}) × Store → Result StoreError Entry × Store
added e (ok u, s) = (ok e, notify s)
added e (err x, s) = (err x, s)

unfoldable pub add :
    Bool → Option String → ℤ → Delivery → String → Store → Result StoreError Entry × Store
unfolding persist notify
add writable none now d preview s = (err no_randomness, s)
add writable (some id) now d preview s =
    let e : Entry = record { id = id; delivery = d; preview = preview; created = now } in
    added e (persist writable (record s { entries = s.entries ++ e ∷ [] }))

abbrev pub sooner : Entry → Entry → Bool
sooner a b = leb_ℤ a.delivery.fire_at b.delivery.fire_at

unfoldable pub list : Store → List Entry
unfolding sort_by
list s = sort_by sooner s.entries

abbrev pub has_id : String → List Entry → Bool
has_id id [] = false
has_id id (e ∷ es) = if e.id == id then true else has_id id es

abbrev removed : Result StoreError (Unit {0}) × Store → (Bool × Option StoreError) × Store
removed (ok u, s) = ((true, none), notify s)
removed (err x, s) = ((true, some x), notify s)

-- The answer is `removed` and the error of the write.
unfoldable pub remove_id : Bool → String → Store → (Bool × Option StoreError) × Store
unfolding persist notify
remove_id writable id s =
    let kept = record s { entries = keep (λ e. not (e.id == id)) s.entries } in
    if has_id id s.entries then removed (persist writable kept) else ((false, none), kept)
