-- ===== src/Gate/Rate.antt =====
-- The rate floor of internal/gate/gate.go over the token bucket of golang.org/x/time/rate, for
-- histories of calls.
use whatsapp_connect_mcp.Prelude.{ℕ, ◌+◌, ◌*◌, ◌≤◌, true, false, List, [], ◌∷◌, ◌≡◌, arith, length}
use whatsapp_connect_mcp.Prelude.Int.{ℤ, pos, to_int64}
use whatsapp_connect_mcp.Gate.Types.{
  Delivery, Deliverer, Limiter, State, second, floor_seconds, raise_per_seconds, raise_burst,
  token_interval,
}
use whatsapp_connect_mcp.Gate.Render.{Codec}
use whatsapp_connect_mcp.Gate.Ops.{Moment, new_state}
use whatsapp_connect_mcp.Gate.Moves.{Moves, stays, refused, delivered, step-Moves}
use whatsapp_connect_mcp.Gate.Calls.{Call, Forward, step, run}

-- A deliverer that also keeps the deliveries it was asked for, the latest first.
unfoldable pub recorded : {W : Type 0} → Deliverer W → Deliverer (List Delivery × W)
recorded deliverer = record {
  deliver = λ d w. let (r, w') = deliverer.deliver d w.1 in (r, (d ∷ w.0, w'));
  validate = λ d w. deliverer.validate d w.1;
}

-- What the package documents of rate.Limiter: a bucket of at most `cap`, refilled by one unit a
-- nanosecond, from which a permitted event takes `cost`. `level l t` is what it holds at time `t`.
pub record IsBucket {L : Type 0} (limits : Limiter L) (cost cap : ℕ) : Type 0 where
  pub level : L → ℕ → ℕ
  pub level_capped : (l : L) (t : ℕ) → level l t ≤ cap
  pub refills : (l : L) (t u : ℕ) → t ≤ u → level l u + t ≤ level l t + u
  pub takes :
      (l : L) (t : ℕ)
      → (limits.allow_n t l).0 ≡ true
      → level (limits.allow_n t l).1 t + cost ≤ level l t
  pub refuses :
      (l : L) (t : ℕ) → (limits.allow_n t l).0 ≡ false → level (limits.allow_n t l).1 t ≤ level l t

-- The time of the last call.
abbrev pub last_time : ℕ → List (Moment × Call) → ℕ
last_time lo [] = lo
last_time lo ((m, c) ∷ cs) = last_time m.now cs

module _ {W L : Type 0} (deliverer : Deliverer W) (limits : Limiter L) (per_seconds cost cap : ℕ)
    (bucket : IsBucket limits cost cap) (start : ℕ) where
  -- What was delivered is paid for by the burst and the time since `start`.
  abbrev Paid : ℕ → State (List Delivery × W) L → Type 0
  Paid now s = length s.world.0 * cost + bucket.level s.limiter now + start ≤ cap + now

  Moves-Paid :
      (now : ℕ) {s t : State (List Delivery × W) L}
      → Moves (recorded deliverer) limits now s t
      → Paid now s
      → Paid now t
  unfolding recorded
  Moves-Paid now {s} {t} (stays w l) h = rw (w, l) h
  Moves-Paid now {s} {t} (refused a w l) h =
      rw (w, l) (omega (arith, bucket.refuses s.limiter now a))
  Moves-Paid now {s} {t} (delivered d a w l) h =
      rw (w, l) (omega (arith, bucket.takes s.limiter now a))

  module _ (codec : Codec) where
    run-Paid :
        (now : ℕ) (s : State (List Delivery × W) L) (cs : List (Moment × Call))
        → Forward now cs
        → Paid now s
        → Paid (last_time now cs) (run (recorded deliverer) limits per_seconds codec s cs)
    unfolding run
    run-Paid now s [] f h = h
    run-Paid now s ((m, c) ∷ cs) f h =
        run-Paid m.now (step (recorded deliverer) limits per_seconds codec m c s) cs f.1 (
          Moves-Paid m.now (step-Moves (recorded deliverer) limits per_seconds codec m c s)
            (omega (arith, bucket.refills s.limiter now m.now f.0)))

floor-le-raise_per_seconds : (n : ℤ) → floor_seconds ≤ raise_per_seconds n
unfolding raise_per_seconds
floor-le-raise_per_seconds n = ground arith

abbrev max_seconds : ℕ
max_seconds = 9_223_372_036

interval-whole :
    (n interval : ℕ) → n ≤ max_seconds → token_interval n ≡ pos interval → interval ≡ n * second
unfolding token_interval to_int64
interval-whole n interval h e = ground (arith, h, e)

-- A gate that New builds from any configured burst, and a rate of at most 9223372036 seconds, over
-- a bucket limiter of that burst whose tokens come one in the interval that New computes, is asked
-- at times that do not go back. Then Deliver is called at most burst times, and once more for each
-- such interval since the start; and an interval is never shorter than five seconds.
pub rate_floor :
    {W L : Type 0} (deliverer : Deliverer W) (limits : Limiter L) (burst rate : ℤ) (interval : ℕ)
    → raise_per_seconds rate ≤ max_seconds
    → token_interval (raise_per_seconds rate) ≡ pos interval
    → (bucket : IsBucket limits interval (raise_burst burst * interval)) (codec : Codec) (w : W)
      (l : L) (start : ℕ) (cs : List (Moment × Call))
    → Forward start cs
    → let s =
        run (recorded deliverer) limits (raise_per_seconds rate) codec (new_state ([], w) l) cs in
      (length s.world.0 * interval + start ≤ raise_burst burst * interval + last_time start cs)
      × (5 * second ≤ interval)
unfolding new_state
rate_floor deliverer limits burst rate interval small e bucket codec w l start cs f =
    let whole = interval-whole (raise_per_seconds rate) interval small e in
    let floor : 5 ≤ raise_per_seconds rate = floor-le-raise_per_seconds rate in
    (
      omega (
        arith,
        run-Paid deliverer limits (raise_per_seconds rate) interval (raise_burst burst * interval)
            bucket start codec start (new_state ([], w) l) cs f
            (omega (arith, bucket.level_capped l start)),
      ),
      omega (arith, whole, floor),
    )
