-- ===== src/Schedule/Runner.antt =====
-- The runner of internal/schedule/runner.go over the live gate of internal/gate/gate.go. One step
-- is one round of its loop: look at the soonest entry, wait for it, or deliver it and drop it.
pub mod Progress
pub mod Unsaved
use whatsapp_connect_mcp.Prelude.{
  ℕ, ◌*◌, ◌≤◌, String, Bool, true, false, not, Option, none, some, List, [], ◌∷◌, ◌==◌, ◌≡◌, refl,
  arith, leb, if◌then◌else◌, Result, ok, err, All, keep, inl, inr, Result-cases, Bool-cases,
}
use whatsapp_connect_mcp.Prelude.Int.{ℤ, pos, negsuc}
use whatsapp_connect_mcp.Prelude.Sorting.{sort_by, All-sort_by, Sorted, sort_by-Sorted}
use whatsapp_connect_mcp.Gate.Types.{
  Delivery, SendResult, Error, rate_limited, invalid, token_failed, draft_invalid, deliver_failed,
  Deliverer, Limiter, State, second,
}
use whatsapp_connect_mcp.Gate.Render.{Codec}
use whatsapp_connect_mcp.Gate.Ops.{deliver_scheduled}
use whatsapp_connect_mcp.Schedule.Store.{Store, Entry, list, remove_id, sooner}

pub record Runtime (W L : Type 0) : Type 0 where
  pub store : Store
  pub gate : State W L

pub data Outcome : Type 0 where
  idle : Outcome  -- nothing pending: waitForChange
  waiting : Outcome  -- the soonest is not due: sleepOrChange
  limited : Outcome  -- no rate token: sleep and retry
  failed : String → Outcome
  delivered : String → Outcome

-- Whether time.Until(time.Unix(fire_at, 0)) is at most zero at `now` nanoseconds.
unfoldable pub is_due : ℕ → Entry → Bool
is_due now e = elim e.delivery.fire_at [ pos n ↦ leb (n * second) now | negsuc n ↦ true ]

abbrev pub is_limit : Error → Bool
is_limit (rate_limited n) = true
is_limit _ = false

abbrev drop : {W L : Type 0} → Bool → Entry → Store → State W L → Runtime W L
drop writable e store gate = record { store = (remove_id writable e.id store).1; gate = gate }

-- The switch on the error of deliver.
abbrev settle :
    {W L : Type 0}
    → Bool
    → Entry
    → Store
    → Result Error SendResult × State W L
    → Outcome × Runtime W L
settle writable e store (ok r, gate) = (delivered e.id, drop writable e store gate)
settle writable e store (err x, gate) =
    if is_limit x
    then (limited, record { store = store; gate = gate })
    else (failed e.id, drop writable e store gate)

module _ {W L : Type 0} (deliverer : Deliverer W) (limits : Limiter L) (per_seconds : ℕ)
    (codec : Codec) where
  -- The round for what `next` answers: the head of the sorted list.
  unfoldable pub round : ℕ → Bool → List Entry → Runtime W L → Outcome × Runtime W L
  round now writable [] r = (idle, r)
  round now writable (e ∷ es) r =
      if is_due now e
      then settle writable e r.store
          (deliver_scheduled deliverer limits per_seconds codec e.delivery now r.gate)
      else (waiting, r)

  unfoldable pub runner_step : ℕ → Bool → Runtime W L → Outcome × Runtime W L
  unfolding round
  runner_step now writable r = round now writable (list r.store) r

  -- Rounds at the given times.
  unfoldable pub rounds : Bool → List ℕ → Runtime W L → Runtime W L
  rounds writable [] r = r
  rounds writable (now ∷ times) r = rounds writable times (runner_step now writable r).1

  -- While no entry is due, a round does nothing: no delivery, no rate token, no change.
  pub no_early_send :
      (now : ℕ) (writable : Bool) (r : Runtime W L)
      → All (λ e. is_due now e ≡ false) r.store.entries
      → (runner_step now writable r).1 ≡ r
  unfolding runner_step list
  no_early_send now writable r h =
      early (list r.store) (All-sort_by sooner (λ e. is_due now e ≡ false) r.store.entries h)
    where
      early :
          (es : List Entry) → All (λ e. is_due now e ≡ false) es → (round now writable es r).1 ≡ r
      early [] p = refl
      early (e ∷ es) p = ground (arith, p.0)
