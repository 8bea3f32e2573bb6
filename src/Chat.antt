-- ===== src/Chat.antt =====
-- src/modules/chat: the messages of two people who matched.
pub mod Types
pub mod Repository
pub mod Service
mod Tests
