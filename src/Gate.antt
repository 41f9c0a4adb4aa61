-- ===== src/Gate.antt =====
-- internal/gate/gate.go: the only path by which an outbound send reaches the bridge.
pub mod Types
pub mod Render
pub mod Drafts
pub mod Ops
pub mod Calls
pub mod Branches
pub mod Bounded
pub mod Moves
pub mod Rate
pub mod Expiry
pub mod Once
pub mod Trust
