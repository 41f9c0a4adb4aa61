-- ===== src/Bridge.antt =====
-- internal/bridge: the client of WhatsApp. whatsmeow, which it drives, is a parameter throughout.
pub mod Addresses
pub mod Content
pub mod Ingest
pub mod Connection
pub mod Roots
pub mod Outbound
pub mod Send
pub mod Download
