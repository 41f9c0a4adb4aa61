-- ===== src/Tools.antt =====
-- internal/mcpserv: the tools that write, what they share, and how their answers are marked.
pub mod Banner
pub mod Send
pub mod Calls
pub mod Groups
pub mod Receipts
pub mod Poll
pub mod Schedules
