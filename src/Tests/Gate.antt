-- ===== src/Tests/Gate.antt =====
-- internal/gate/gate.go on a small gate: one burst token, one each twelve seconds.
use whatsapp_connect_mcp.Prelude.{
  ℕ, suc, ◌+◌, ◌-◌, ◌*◌, ◌≤◌, true, false, none, some, List, [], ◌∷◌, ◌==◌, ◌≡◌, ◌⊎◌, refl, length,
  ok, err, if◌then◌else◌, leb, arith,
}
use whatsapp_connect_mcp.Prelude.Int.{to_int64, pos}
use whatsapp_connect_mcp.Prelude.Dict.{lookup}
use whatsapp_connect_mcp.Gate.Types.{
  Delivery, delivery, SendResult, draft_invalid, DraftEntry, Deliverer, Limiter, State, second,
  raise_per_seconds, raise_burst, token_interval, deep_equal,
}
use whatsapp_connect_mcp.Gate.Render.{Codec, build_preview, new_draft_token}
use whatsapp_connect_mcp.Gate.Drafts.{is_live, store_draft}
use whatsapp_connect_mcp.Gate.Ops.{
  Moment, always_drafts, new_state, book, submit, approve, commit, claim, send, report, list_drafts,
  deliver_now, create_draft,
}
use whatsapp_connect_mcp.Gate.Calls.{Call, submits, approves, lists, run, step}
use whatsapp_connect_mcp.Gate.Moves.{Moves, step-Moves}
use whatsapp_connect_mcp.Gate.Bounded.{IsBounded, run-IsBounded}
use whatsapp_connect_mcp.Gate.Once.{resubmitted, approved, confirm, at_most_once}
use whatsapp_connect_mcp.Gate.Rate.{recorded, IsBucket, last_time, rate_floor}
use whatsapp_connect_mcp.Gate.Trust.{unconfirmed_sends_nothing, commit_exact, limited_keeps_draft}
use whatsapp_connect_mcp.Gate.Expiry.Exact.{keep_live}
use whatsapp_connect_mcp.Gate.Expiry.Histories.{list_exact}

-- A token bucket, refilled by one unit a nanosecond.
pub record Bucket : Type 0 where
  level : ℕ
  last : ℕ

abbrev min : ℕ → ℕ → ℕ
min a b = if leb a b then a else b

abbrev held : ℕ → Bucket → ℕ → ℕ
held cap b t = min cap (b.level + (t - b.last))

abbrev pub bucket_limiter : ℕ → ℕ → Limiter Bucket
bucket_limiter cost cap = record {
  allow_n = λ t b.
      if leb cost (held cap b t)
      then (true, record { level = held cap b t - cost; last = t })
      else (false, record { level = held cap b t; last = t });
}

bucket_limiter-IsBucket : (cost cap : ℕ) → IsBucket (bucket_limiter cost cap) cost cap
bucket_limiter-IsBucket cost cap = record {
  level = held cap;
  level_capped = λ l t. ground arith;
  refills = λ l t u h. ground arith;
  takes = λ l t h. ground arith;
  refuses = λ l t h. ground arith;
}

-- The world counts the deliveries.
abbrev pub counter : Deliverer ℕ
counter = record { deliver = λ d w. (ok "id", suc w); validate = λ d w. none }

abbrev pub plain : Codec
plain = record { quote = λ s. s; rfc3339 = λ t. "t"; sha256 = λ s. s; hex = λ s. s }

abbrev pub per : ℕ
per = 12

abbrev pub limits : Limiter Bucket
limits = bucket_limiter (12 * second) (12 * second)

abbrev pub full : Bucket
full = record { level = 12 * second; last = 0 }

abbrev pub hello : Delivery
hello = record (delivery "text" "anna") { text = "hi" }

abbrev to_anna : DraftEntry
to_anna = record { delivery = hello; preview = "anna text"; expires = 400 * second }

abbrev pub drafted : State ℕ Bucket
drafted = record { world = 0; limiter = full; drafts = ("tok", to_anna) ∷ []; order = "tok" ∷ [] }

abbrev dry : State ℕ Bucket
dry = record drafted { limiter = record { level = 0; last = 100 * second } }

abbrev pub at : ℕ → Moment
at t = record {
  now = t;
  trusted = some (λ jid. jid == "bob");
  resolve_name = none;
  nonce = some "nonce";
}

abbrev busy : List (Moment × Call)
busy =
    (at (20 * second), lists)
    ∷ (at (21 * second), submits (delivery "text" "bob") "")
    ∷ (at (22 * second), submits hello "")
    ∷ []

submit_drafts : (submit counter limits per plain (at 0) hello "" (new_state 0 full)).1.world ≡ 0
unfolding submit create_draft new_draft_token store_draft new_state always_drafts
submit_drafts = refl

submit_trusted :
    (submit counter limits per plain (at 0) (delivery "text" "bob") "" (new_state 0 full)).1.world
    ≡ 1
unfolding submit deliver_now send always_drafts new_state
submit_trusted = refl

approve_sends : (approve counter limits per "tok" second drafted).1.world ≡ 1
unfolding approve claim send lookup
approve_sends = refl

at_most_once_example :
    let s =
      run counter limits per plain
        (confirm counter limits per approved "tok" second drafted).1
        busy in
    confirm counter limits per (resubmitted hello "p") "tok" (30 * second) s
    ≡ (err draft_invalid, s)
unfolding approve claim send lookup report new_draft_token
at_most_once_example =
    at_most_once counter limits per plain approved (resubmitted hello "p") "tok" second
      (30 * second) drafted busy tt (refl, (refl, (refl, tt)))

unconfirmed_sends_nothing_example :
    let (answer, t) = submit counter limits per plain (at 0) hello "" drafted in
    (t.world ≡ 0)
    × (t.limiter ≡ full)
    × ((r : SendResult)
        → answer ≡ ok r
        → (r.sent ≡ false)
          × (new_draft_token plain hello (some "nonce") ≡ ok r.draft_token)
          × (r.preview ≡ build_preview plain "" hello))
unfolding always_drafts
unconfirmed_sends_nothing_example =
    unconfirmed_sends_nothing counter limits per plain (at 0) hello drafted refl

step-Moves_example :
    Moves counter limits second drafted
      (step counter limits per plain (at second) (approves "tok") drafted)
step-Moves_example = step-Moves counter limits per plain (at second) (approves "tok") drafted

commit_exact_example :
    ((e : DraftEntry) × (lookup "tok" drafted.drafts ≡ some e)
      × (is_live second e ≡ true)
      × (e.delivery ≡ hello))
    ⊎ (commit counter limits per hello "tok" "p" second drafted ≡ (err draft_invalid, drafted))
commit_exact_example = commit_exact counter limits per plain hello "tok" "p" second drafted

limited_keeps_draft_example :
    let t = (commit counter limits per hello "tok" "p" (100 * second) dry).1 in
    (t.drafts ≡ dry.drafts) × (t.order ≡ dry.order) × (t.world ≡ dry.world) × (12 ≡ per)
unfolding commit claim lookup deep_equal
limited_keeps_draft_example =
    limited_keeps_draft counter limits per plain hello "tok" "p" (100 * second) dry {wait = 12} refl

run-IsBounded_example : IsBounded (book (run counter limits per plain (new_state 0 full) busy))
run-IsBounded_example = run-IsBounded counter limits per plain 0 full busy

rate_floor_example :
    let s =
      run
        (recorded counter)
        limits
        (raise_per_seconds (pos 12))
        plain
        (new_state ([], 0) full)
        busy in
    (length s.world.0 * (12 * second) + 0 ≤ raise_burst (pos 1) * (12 * second) + last_time 0 busy)
    × (5 * second ≤ 12 * second)
unfolding raise_per_seconds raise_burst token_interval to_int64
rate_floor_example =
    rate_floor counter limits (pos 1) (pos 12) (12 * second) (omega arith) refl
      (bucket_limiter-IsBucket (12 * second) (12 * second)) plain 0 full 0 busy
      (omega arith, (omega arith, (omega arith, tt)))

abbrev one_draft : List (Moment × Call)
one_draft = (at (20 * second), submits hello "") ∷ []

list_exact_example :
    let s = run counter limits per plain (new_state 0 full) one_draft in
    lookup "tok" (list_drafts counter limits per (30 * second) s).1.drafts
    ≡ keep_live (30 * second) (lookup "tok" s.drafts)
unfolding new_state
list_exact_example =
    list_exact counter limits per plain 0 full 0 one_draft (30 * second) "tok" (omega arith, tt)
      (λ t h. refl, tt)
