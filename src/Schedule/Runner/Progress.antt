-- ===== src/Schedule/Runner/Progress.antt =====
-- What the rounds of internal/schedule/runner.go achieve.
use whatsapp_connect_mcp.Prelude.{
  ℕ, ◌≤◌, ◌<◌, String, Bool, true, false, not, List, [], ◌∷◌, ◌==◌, ◌≡◌, refl, arith, Result, ok,
  err, All, All-keep-All, All-map, ◌⊎◌, ap, keep, inl, inr, Bool-cases, length, eq_iff,
  length-keep-le,
}
use whatsapp_connect_mcp.Prelude.Sorting.{All-sort_by, length-sort_by}
use whatsapp_connect_mcp.Gate.Types.{Delivery, SendResult, Error, Deliverer, Limiter, State}
use whatsapp_connect_mcp.Gate.Render.{Codec}
use whatsapp_connect_mcp.Gate.Ops.{deliver_scheduled, deliver_now, send, report}
use whatsapp_connect_mcp.Schedule.Store.{Store, Entry, list, remove_id, sooner, has_id}
use whatsapp_connect_mcp.Schedule.Runner.{
  Runtime, Outcome, failed, delivered, is_due, round, runner_step, rounds, is_limit, settle,
}

-- Removing an id that is there leaves fewer entries, of those that were there.
length-keep-lt :
    (id : String) (es : List Entry)
    → has_id id es ≡ true
    → length (keep (λ e. not (e.id == id)) es) < length es
length-keep-lt id [] h = ground arith
length-keep-lt id (e ∷ es) h =
    ground (arith, length-keep-lt id es, length-keep-le (λ (x : Entry). not (x.id == id)) es)

empty_of_length : (es : List Entry) → length es ≡ 0 → es ≡ []
empty_of_length [] h = refl
empty_of_length (e ∷ es) h = absurd (omega arith)

has_own_id : (es : List Entry) → All (λ e. has_id e.id es ≡ true) es
has_own_id [] = tt
has_own_id (e ∷ es) = (ground (arith, eq_iff e.id e.id), weaken es (has_own_id es))
  where
    weaken :
        (xs : List Entry)
        → All (λ x. has_id x.id es ≡ true) xs
        → All (λ x. has_id x.id (e ∷ es) ≡ true) xs
    weaken [] h = tt
    weaken (x ∷ xs) h = (ground (arith, h.0), weaken xs h.1)

has_id_kept : (id : String) (es : List Entry) → has_id id (keep (λ e. not (e.id == id)) es) ≡ false
has_id_kept id [] = refl
has_id_kept id (e ∷ es) = ground (arith, has_id_kept id es)

entries-remove_id :
    (writable : Bool) (id : String) (s : Store)
    → (remove_id writable id s).1.entries ≡ keep (λ e. not (e.id == id)) s.entries
unfolding remove_id
entries-remove_id true id s = ground arith
entries-remove_id false id s = ground arith

-- A removed id is gone, whether or not the disk took the change.
gone :
    (writable : Bool) (e : Entry) (store : Store)
    → has_id e.id (remove_id writable e.id store).1.entries ≡ false
gone writable e store = rw (entries-remove_id writable e.id store) (has_id_kept e.id store.entries)

-- What an outcome says of the store after the round.
abbrev pub Settled : Outcome → Store → Store → Type 0
Settled (delivered id) before after =
    (has_id id before.entries ≡ true) × (has_id id after.entries ≡ false)
Settled (failed id) before after =
    (has_id id before.entries ≡ true) × (has_id id after.entries ≡ false)
Settled _ before after = after ≡ before

module _ {W L : Type 0} (deliverer : Deliverer W) (limits : Limiter L) (per_seconds : ℕ)
    (codec : Codec) where
  settle-Settled :
      (writable : Bool) (e : Entry) (store : Store)
      → has_id e.id store.entries ≡ true
      → (a : Result Error SendResult × State W L)
      → Settled (settle writable e store a).0 store (settle writable e store a).1.store
  settle-Settled writable e store h (ok r, gate) = (h, gone writable e store)
  settle-Settled writable e store h (err x, gate) = elim (Bool-cases (is_limit x)) [
    | inl p ↦ rw p refl
    | inr p ↦ rw p (h, gone writable e store)
  ]

  round-Settled :
      (now : ℕ) (writable : Bool) (es : List Entry) (r : Runtime W L)
      → All (λ e. has_id e.id r.store.entries ≡ true) es
      → let (o, r') = round deliverer limits per_seconds codec now writable es r in
        Settled o r.store r'.store
  unfolding round
  round-Settled now writable [] r h = refl
  round-Settled now writable (e ∷ es) r h = elim (Bool-cases (is_due now e)) [
    | inr early ↦ rw (early, round) refl
    | inl due ↦
        rw (due, round)
          (settle-Settled writable e r.store h.0
            (deliver_scheduled deliverer limits per_seconds codec e.delivery now r.gate))
  ]

  -- A round that delivered an entry, or failed to, has dropped it: its id was pending and is not
  -- any more, so that the send is never repeated. Any other round, the one that the rate limiter
  -- refused among them, leaves the schedules as they were.
  pub runner_step_settles :
      (now : ℕ) (writable : Bool) (r : Runtime W L)
      → let (o, r') = runner_step deliverer limits per_seconds codec now writable r in
        Settled o r.store r'.store
  unfolding runner_step list
  runner_step_settles now writable r = round-Settled now writable (list r.store) r (
      All-sort_by sooner (λ e. has_id e.id r.store.entries ≡ true) r.store.entries
        (has_own_id r.store.entries))

  module _ (grants : (t : ℕ) (l : L) → (limits.allow_n t l).0 ≡ true) where
    not_limited :
        (d : Delivery) (now : ℕ) (s : State W L) {x : Error}
        → (deliver_scheduled deliverer limits per_seconds codec d now s).0 ≡ err x
        → is_limit x ≡ false
    unfolding deliver_scheduled deliver_now send report
    not_limited d now s h = ground (arith, grants now s.limiter)

    -- While tokens are granted and the soonest entry is due, a round drops an entry.
    round-drops :
        (now : ℕ) (writable : Bool) (e : Entry) (es : List Entry) (r : Runtime W L)
        → is_due now e ≡ true
        → (round deliverer limits per_seconds codec now writable (e ∷ es) r).1.store
          ≡ (remove_id writable e.id r.store).1
    unfolding round
    round-drops now writable e es r due =
        rw (due, round)
          (dropped (deliver_scheduled deliverer limits per_seconds codec e.delivery now r.gate)
            refl)
      where
        dropped :
            (a : Result Error SendResult × State W L)
            → deliver_scheduled deliverer limits per_seconds codec e.delivery now r.gate ≡ a
            → (settle writable e r.store a).1.store ≡ (remove_id writable e.id r.store).1
        dropped (ok x, gate) p = refl
        dropped (err x, gate) p = rw (
            not_limited e.delivery now r.gate
              (ap (λ (a : Result Error SendResult × State W L). a.0) p))

    -- The list of entries gets shorter, and keeps what holds of all of them.
    runner_step-drops :
        (now : ℕ) (writable : Bool) (P : Entry → Type 0) (r : Runtime W L)
        → All (λ e. is_due now e ≡ true) r.store.entries
        → All P r.store.entries
        → let after =
            (runner_step deliverer limits per_seconds codec now writable r).1.store.entries in
          ((after ≡ []) ⊎ (length after < length r.store.entries)) × All P after
    unfolding runner_step list
    runner_step-drops now writable P r due p =
        go (list r.store) refl (All-sort_by sooner (λ e. is_due now e ≡ true) r.store.entries due) (
          All-sort_by sooner (λ e. has_id e.id r.store.entries ≡ true) r.store.entries
            (has_own_id r.store.entries))
      where
        go :
            (es : List Entry)
            → list r.store ≡ es
            → All (λ e. is_due now e ≡ true) es
            → All (λ e. has_id e.id r.store.entries ≡ true) es
            → let after =
                (round deliverer limits per_seconds codec now writable es r).1.store.entries in
              ((after ≡ []) ⊎ (length after < length r.store.entries)) × All P after
        go [] q d h = (
          inl (
              empty_of_length r.store.entries
                (omega (arith, length-sort_by sooner r.store.entries, ap length q))),
          p,
        )
        go (e ∷ es) q d h =
            rw (round-drops now writable e es r d.0, entries-remove_id writable e.id r.store)
              (
                inr (length-keep-lt e.id r.store.entries h.0),
                All-keep-All P (λ x. not (x.id == e.id)) r.store.entries p,
              )

    -- Liveness. While the limiter grants a token to every call, and at every round all pending
    -- entries are due, as many rounds as there are entries leave nothing pending.
    pub rounds_drain :
        (writable : Bool) (times : List ℕ) (r : Runtime W L)
        → length r.store.entries ≤ length times
        → All (λ e. All (λ t. is_due t e ≡ true) times) r.store.entries
        → (rounds deliverer limits per_seconds codec writable times r).store.entries ≡ []
    unfolding rounds
    rounds_drain writable [] r le due = empty_of_length r.store.entries (omega arith)
    rounds_drain writable (t ∷ times) r le due =
        let r' = (runner_step deliverer limits per_seconds codec t writable r).1 in
        let step =
          runner_step-drops t writable (λ e. All (λ u. is_due u e ≡ true) times) r
            (All-map (λ e h. h.0) r.store.entries due) (All-map (λ e h. h.1) r.store.entries due) in
        rounds_drain writable times r' (ground (arith, step.0)) step.1
