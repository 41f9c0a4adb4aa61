-- ===== src/Access.antt =====
-- Which chats an agent may read and whom it may send to without a confirmation.
pub mod Config
pub mod Readers
pub mod Saving
pub mod Edits
pub mod ScopedStore
pub mod SessionTrust
