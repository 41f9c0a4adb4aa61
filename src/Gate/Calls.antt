-- ===== src/Gate/Calls.antt =====
-- Histories of a gate: the calls that the send tools, the dashboard and the schedule runner make
-- of internal/gate/gate.go, one after the other.
use whatsapp_connect_mcp.Prelude.{ℕ, String, List, [], ◌∷◌, ◌≤◌}
use whatsapp_connect_mcp.Gate.Types.{Delivery, Deliverer, Limiter, State}
use whatsapp_connect_mcp.Gate.Render.{Codec}
use whatsapp_connect_mcp.Gate.Ops.{Moment, submit, approve, discard, list_drafts, deliver_scheduled}

pub data Call : Type 0 where
  submits : Delivery → String → Call
  approves : String → Call
  discards : String → Call
  lists : Call
  fires : Delivery → Call

-- The moments do not go back in time, from `lo` on.
abbrev pub Forward : ℕ → List (Moment × Call) → Type 0
Forward lo [] = Unit
Forward lo ((m, c) ∷ cs) = (lo ≤ m.now) × Forward m.now cs

module _ {W L : Type 0} (deliverer : Deliverer W) (limits : Limiter L) (per_seconds : ℕ)
    (codec : Codec) where
  unfoldable pub step : Moment → Call → State W L → State W L
  step m (submits d token) s = (submit deliverer limits per_seconds codec m d token s).1
  step m (approves token) s = (approve deliverer limits per_seconds token m.now s).1
  step m (discards token) s = (discard deliverer limits per_seconds token s).1
  step m lists s = (list_drafts deliverer limits per_seconds m.now s).1
  step m (fires d) s = (deliver_scheduled deliverer limits per_seconds codec d m.now s).1

  unfoldable pub run : State W L → List (Moment × Call) → State W L
  run s [] = s
  run s ((m, c) ∷ cs) = run (step m c s) cs
