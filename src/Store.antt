-- ===== src/Store.antt =====
-- internal/store: the local database of chats, messages, contacts and calls.
pub mod Types
pub mod Rows
pub mod Ingest
pub mod Mentions
pub mod Query
pub mod Lookups
pub mod Poll
pub mod Fold
