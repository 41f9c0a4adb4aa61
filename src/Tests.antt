-- ===== src/Tests.antt =====
-- Runs on small inputs, and uses of the theorems at concrete ones.
mod Gate
mod Schedules
mod Database
mod Reads
mod People
mod Tools
mod Book
mod Bridge
mod Files
mod Polls
