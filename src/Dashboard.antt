-- ===== src/Dashboard.antt =====
-- internal/dashboard: the part of it that keeps a state of its own.
pub mod Pairing
