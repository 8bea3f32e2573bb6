-- ===== src/Phone.antt =====
-- src/modules/phone: codes that are sent to Korean mobile phones, and what a verified phone can do.
pub mod Types
pub mod Repository
pub mod Number
pub mod Service
mod Tests
