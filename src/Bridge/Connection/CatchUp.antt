-- ===== src/Bridge/Connection/CatchUp.antt =====
-- What the counters of internal/bridge/bridge.go say of the connection events so far, and that
-- WaitForCatchUp ends.
use whatsapp_connect_mcp.Prelude.{
  ℕ, zero, suc, ◌+◌, ◌*◌, ◌≤◌, ◌<◌, eqb, leb, not, ◌||◌, Bool, true, false, none, some, List, [],
  ◌∷◌, ◌≡◌, refl, arith, if◌then◌else◌, Bool-cases, inl, inr,
}
use whatsapp_connect_mcp.Bridge.Connection.{
  Link, Event, content, connects, offline_sync_completed, logged_out, View, opened, handle_event,
  is_catching_up, is_over, wait_for_catch_up, grace, set_state, set_client, note_disconnect,
  reinit_after_logout,
}

-- The events with the times at which they are handled, from a fresh bridge.
unfoldable pub run : List (ℕ × Event) → Link → Link
run [] l = l
run ((now, e) ∷ es) l = run es (handle_event now e l)

-- Whether a connection is the last of the connections and completed offline syncs.
abbrev pub connected_last : List (ℕ × Event) → Bool → Bool
connected_last [] b = b
connected_last ((now, connects) ∷ es) b = connected_last es true
connected_last ((now, offline_sync_completed) ∷ es) b = connected_last es false
connected_last ((now, _) ∷ es) b = connected_last es b

-- The connections among the events, counted from `n` on.
abbrev pub connections : List (ℕ × Event) → ℕ → ℕ
connections [] n = n
connections ((now, connects) ∷ es) n = connections es (suc n)
connections ((now, _) ∷ es) n = connections es n

-- When the last connection came, or `at` if there is none.
abbrev pub connected_time : List (ℕ × Event) → ℕ → ℕ
connected_time [] at = at
connected_time ((now, connects) ∷ es) at = connected_time es now
connected_time ((now, _) ∷ es) at = connected_time es at

-- The connections that the state knows of.
abbrev pub counted : Link → ℕ
counted l = if l.ever_connected then suc l.reconnects else 0

record IsCounted (b : Bool) (n at : ℕ) (l : Link) : Type 0 where
  catching : is_catching_up l ≡ b
  time : l.connected_at ≡ at
  count : counted l ≡ n
  fresh : l.ever_connected ≡ false → l.reconnects ≡ 0
  connected_bound : l.connected_seq ≤ l.catch_up_seq
  offline_bound : l.offline_sync_seq ≤ l.catch_up_seq

-- The counters are the same.
record Same (l l' : Link) : Type 0 where
  connected_at : l'.connected_at ≡ l.connected_at
  connected_seq : l'.connected_seq ≡ l.connected_seq
  offline_sync_seq : l'.offline_sync_seq ≡ l.offline_sync_seq
  catch_up_seq : l'.catch_up_seq ≡ l.catch_up_seq
  ever_connected : l'.ever_connected ≡ l.ever_connected
  reconnects : l'.reconnects ≡ l.reconnects

Same-IsCounted :
    {b : Bool} {n at : ℕ} (l l' : Link) → Same l l' → IsCounted b n at l → IsCounted b n at l'
unfolding is_catching_up
Same-IsCounted l l' s v = record {
  catching = rw (s.connected_seq, s.offline_sync_seq) v.catching;
  time = rw s.connected_at v.time;
  count = rw (s.ever_connected, s.reconnects) v.count;
  fresh = rw (s.ever_connected, s.reconnects) v.fresh;
  connected_bound = omega (arith, s, v.connected_bound);
  offline_bound = omega (arith, s, v.offline_bound);
}

abbrev counters : Event → Bool
counters connects = true
counters offline_sync_completed = true
counters _ = false

other-Same : (now : ℕ) (e : Event) (l : Link) → counters e ≡ false → Same l (handle_event now e l)
unfolding handle_event set_state note_disconnect reinit_after_logout set_client
other-Same now content l h = record {
  connected_at = refl;
  connected_seq = refl;
  offline_sync_seq = refl;
  catch_up_seq = refl;
  ever_connected = refl;
  reconnects = refl;
}
other-Same now connects l h = absurd (ground arith)
other-Same now offline_sync_completed l h = absurd (ground arith)
other-Same now (logged_out none) l h = record {
  connected_at = refl;
  connected_seq = refl;
  offline_sync_seq = refl;
  catch_up_seq = refl;
  ever_connected = refl;
  reconnects = refl;
}
other-Same now (logged_out (some p)) l h = record {
  connected_at = refl;
  connected_seq = refl;
  offline_sync_seq = refl;
  catch_up_seq = refl;
  ever_connected = refl;
  reconnects = refl;
}
other-Same now e l h = record {
  connected_at = refl;
  connected_seq = refl;
  offline_sync_seq = refl;
  catch_up_seq = refl;
  ever_connected = refl;
  reconnects = refl;
}

connects-IsCounted :
    (now : ℕ) (b : Bool) (n at : ℕ) (l : Link)
    → IsCounted b n at l
    → IsCounted true (suc n) now (handle_event now connects l)
unfolding handle_event is_catching_up set_state
connects-IsCounted now b n at l v = record {
  time = refl;
  catching = ground (arith, v.offline_bound);
  count = ground (arith, v.count, v.fresh);
  fresh = λ h. ground arith;
  connected_bound = omega arith;
  offline_bound = omega (arith, v.offline_bound);
}

completed-IsCounted :
    (now : ℕ) (b : Bool) (n at : ℕ) (l : Link)
    → IsCounted b n at l
    → IsCounted false n at (handle_event now offline_sync_completed l)
unfolding handle_event is_catching_up
completed-IsCounted now b n at l v = record {
  time = v.time;
  catching = ground (arith, v.connected_bound);
  count = v.count;
  fresh = v.fresh;
  connected_bound = omega (arith, v.connected_bound);
  offline_bound = omega arith;
}

run-IsCounted :
    (es : List (ℕ × Event)) (b : Bool) (n at : ℕ) (l : Link)
    → IsCounted b n at l
    → IsCounted (connected_last es b) (connections es n) (connected_time es at) (run es l)
unfolding run
run-IsCounted [] b n at l v = v
run-IsCounted ((now, connects) ∷ es) b n at l v =
    run-IsCounted es true (suc n) now _ (connects-IsCounted now b n at l v)
run-IsCounted ((now, offline_sync_completed) ∷ es) b n at l v =
    run-IsCounted es false n at _ (completed-IsCounted now b n at l v)
run-IsCounted ((now, e) ∷ es) b n at l v =
    run-IsCounted es b n at _ (Same-IsCounted l _ (other-Same now e l refl) v)

-- After any events since Open, WaitForCatchUp lets a read go at once exactly if there has been no
-- connection since the last completed offline sync, or the fifteen seconds of grace since the last
-- connection have passed, or the context of the read is done. The connections are the first and
-- the reconnects that Status counts.
pub status_exact :
    (opened_at : ℕ) (paired : Bool) (es : List (ℕ × Event)) (now : ℕ) (cancelled : Bool)
    → let l = run es (opened opened_at paired) in
      (is_over (record { now = now; link = l; cancelled = cancelled })
        ≡ (not (connected_last es false) || (leb (connected_time es 0 + 15_000) now || cancelled)))
      × (counted l ≡ connections es 0)
unfolding opened is_catching_up set_state set_client
status_exact opened_at paired es now cancelled =
    let v : IsCounted false 0 0 (opened opened_at paired) = record {
      catching = refl;
      time = refl;
      count = refl;
      fresh = λ h. refl;
      connected_bound = omega arith;
      offline_bound = omega arith;
    } in
    let w = run-IsCounted es false 0 0 (opened opened_at paired) v in
    (rw (w.catching, w.time) refl, w.count)

-- Rounds are at least fifty milliseconds apart.
abbrev pub Paced : (ℕ → View) → Type 0
Paced views = (n : ℕ) → (views n).now + 50 ≤ (views (suc n)).now

-- The call returns in a round that may end it, and every round before was within the grace.
abbrev pub Waits : (ℕ → View) → ℕ → ℕ → ℕ → Type 0
Waits views at n k =
    (is_over (views k) ≡ true) × ((j : ℕ) → n ≤ j → j < k → (views j).now < at + 15_000)

wait_in_time :
    (views : ℕ → View) (at : ℕ)
    → Paced views
    → ((n : ℕ) → (views n).link.connected_at ≡ at)
    → (fuel n : ℕ) → at + grace ≤ (views n).now + 50 * fuel
    → (k : ℕ) × (wait_for_catch_up (suc fuel) views n ≡ some k) × Waits views at n k
unfolding wait_for_catch_up
wait_in_time views at paced since zero n h =
    let over : is_over (views n) ≡ true = ground (arith, since n, h) in
    (n, rw over refl, (over, λ j p q. absurd (omega (arith, p, q))))
wait_in_time views at paced since (suc fuel) n h = elim (Bool-cases (is_over (views n))) [
  | inl over ↦ (n, rw over refl, (over, λ j p q. absurd (omega (arith, p, q))))
  | inr goes ↦
      let (k, p, (q, early)) =
        wait_in_time views at paced since fuel (suc n) (omega (arith, paced n, h)) in
      let now : (views n).now < at + 15_000 = ground (arith, goes, since n) in
      (
        k,
        rw goes p,
        (
          q,
          λ j l m. elim (Bool-cases (eqb j n)) [
            | inl s ↦ let same : j ≡ n = ground (arith, s) in rw same now
            | inr s ↦ early j (ground (arith, l, s)) m
          ],
        ),
      )
]

-- While no further connection comes in, with rounds at least fifty milliseconds apart,
-- WaitForCatchUp returns in the first of its rounds at the latest that comes after the fifteen
-- seconds of grace since the connection, and that is one of its first 301.
pub wait_ends :
    (views : ℕ → View) (at : ℕ)
    → Paced views
    → ((n : ℕ) → (views n).link.connected_at ≡ at)
    → at ≤ (views 0).now
    → (k : ℕ) × (wait_for_catch_up 301 views 0 ≡ some k) × Waits views at 0 k
wait_ends views at paced since h = wait_in_time views at paced since 300 0 (omega (arith, h))
