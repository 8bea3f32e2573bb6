-- ===== src/Auth.antt =====
-- src/modules/auth: accounts, sign-in with a verified phone or with Kakao, and refresh tokens.
pub mod Types
pub mod Input
pub mod Repository
pub mod KakaoRepository
pub mod Service
pub mod Kakao
mod Tests
