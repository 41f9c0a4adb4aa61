-- ===== src/Dashboard/Pairing.antt =====
-- internal/dashboard/pair.go: pairing with WhatsApp, one attempt at a time. The handlers run under
-- the mutex, and each attempt is a goroutine of its own; `Step` interleaves them.
use whatsapp_connect_mcp.Prelude.{
  ℕ, suc, ◌≤◌, String, Bool, true, false, not, ◌==◌, ◌≡◌, refl, arith, if◌then◌else◌, eq_iff,
}

-- pairState
pub record Pair : Type 0 where
  pub active : Bool
  pub code : String
  pub last_err : String

pub data Answer : Type 0 where
  method_not_allowed already_running already_paired started : Answer
  not_paired logged_out logout_failed no_code : Answer
  qr : String → Answer

abbrev pub idle : Pair
idle = record { active = false; code = ""; last_err = "" }

-- handlePairStart, with whether it starts a goroutine.
unfoldable pub handle_pair_start : Bool → Bool → Pair → (Answer × Bool) × Pair
handle_pair_start is_post needs_pairing p =
    if not is_post
    then ((method_not_allowed, false), p)
    else if p.active
    then ((already_running, false), p)
    else if not needs_pairing
    then ((already_paired, false), p)
    else ((started, true), record { active = true; code = ""; last_err = "" })

-- The callback that PairQR calls with each code.
unfoldable pub show_code : String → Pair → Pair
show_code code p = record p { code = code }

-- How PairQR, and OnPaired after it, ended.
pub data Ended : Type 0 where
  paired cancelled : Ended
  failed : String → Ended

-- The end of runPairing.
unfoldable pub finish_pairing : Ended → Pair → Pair
finish_pairing paired p = record p { active = false; code = "" }
finish_pairing cancelled p = record p { active = false; code = "" }
finish_pairing (failed e) p = record { active = false; code = ""; last_err = e }

-- handlePairLogout: the answer, and whether Logout was called. `logs_out` says that it worked.
unfoldable pub handle_pair_logout : Bool → Bool → Bool → Pair → Answer × Bool
handle_pair_logout is_post needs_pairing logs_out p =
    if not is_post
    then (method_not_allowed, false)
    else if p.active
    then (already_running, false)
    else if needs_pairing
    then (not_paired, false)
    else if logs_out
    then (logged_out, true)
    else (logout_failed, true)

-- handlePairQR
unfoldable pub handle_pair_qr : Pair → Answer
handle_pair_qr p = if p.code == "" then no_code else qr p.code

-- The state, and how many goroutines are in runPairing.
pub record World : Type 0 where
  pub pair : Pair
  pub running : ℕ

abbrev spawn : Bool → ℕ → ℕ
spawn true n = suc n
spawn false n = n

-- A request to start, a code shown by an attempt that runs, or the end of one.
pub data Step : World → World → Type 0 where
  request :
      (w : World) (is_post needs_pairing : Bool)
      → Step w (record {
        pair = (handle_pair_start is_post needs_pairing w.pair).1;
        running = spawn (handle_pair_start is_post needs_pairing w.pair).0.1 w.running;
      })
  shown :
      (p : Pair) (n : ℕ) (code : String)
      → Step
          (record { pair = p; running = suc n })
          (record { pair = show_code code p; running = suc n })
  ended :
      (p : Pair) (n : ℕ) (e : Ended)
      → Step
          (record { pair = p; running = suc n })
          (record { pair = finish_pairing e p; running = n })

pub data Reachable : World → Type 0 where
  initial : Reachable (record { pair = idle; running = 0 })
  after : {v w : World} → Reachable v → Step v w → Reachable w

-- An attempt runs exactly while the state is active, and only one; without one no code is shown.
pub record SingleFlight (w : World) : Type 0 where
  pub exact : w.running ≡ (if w.pair.active then 1 else 0)
  pub no_stale_code : w.pair.active ≡ false → w.pair.code ≡ ""

Step-SingleFlight : {v w : World} → Step v w → SingleFlight v → SingleFlight w
unfolding handle_pair_start show_code finish_pairing
Step-SingleFlight (request v is_post needs) h = record {
  exact = ground (arith, h.exact);
  no_stale_code = λ p. ground (arith, h.no_stale_code, p);
}
Step-SingleFlight (shown p n code) h = record {
  exact = h.exact;
  no_stale_code = λ q. ground (arith, h.exact, q);
}
Step-SingleFlight (ended p n paired) h = record {
  exact = ground (arith, h.exact);
  no_stale_code = λ q. refl;
}
Step-SingleFlight (ended p n cancelled) h = record {
  exact = ground (arith, h.exact);
  no_stale_code = λ q. refl;
}
Step-SingleFlight (ended p n (failed e)) h = record {
  exact = ground (arith, h.exact);
  no_stale_code = λ q. refl;
}

-- Whatever requests, codes and ends come in whatever order, an attempt runs exactly while the
-- state is active and never two at a time, and an inactive state shows no code.
pub reachable-SingleFlight : {w : World} → Reachable w → SingleFlight w
reachable-SingleFlight initial = record { exact = refl; no_stale_code = λ p. refl }
reachable-SingleFlight (after r s) = Step-SingleFlight s (reachable-SingleFlight r)

-- While an attempt runs, a logout is refused without calling Logout; and a QR code is served only
-- then.
pub running_excludes_logout :
    (w : World) (is_post needs_pairing logs_out : Bool)
    → Reachable w
    → (1 ≤ w.running → (handle_pair_logout is_post needs_pairing logs_out w.pair).1 ≡ false)
      × (w.running ≡ 0 → handle_pair_qr w.pair ≡ no_code)
unfolding handle_pair_logout handle_pair_qr
running_excludes_logout w is_post needs logs_out r =
    let flight = reachable-SingleFlight r in
    (
      λ h. ground (arith, flight.exact, h),
      λ h. ground (arith, flight.exact, flight.no_stale_code, h, eq_iff w.pair.code ""),
    )
