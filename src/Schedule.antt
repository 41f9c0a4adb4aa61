-- ===== src/Schedule.antt =====
-- internal/schedule: sends confirmed for a later time, and the runner that delivers them.
pub mod Store
pub mod Persistence
pub mod Admission
pub mod Runner
