-- ===== src/Tests.antt =====
-- The theorems at concrete inputs.
pub mod Fixtures
pub mod Commands
pub mod Filters
pub mod Notes
pub mod Bots
pub mod Answers
pub mod Files
pub mod Chats
pub mod Queues
pub mod Threads
