-- ===== src/Billing.antt =====
-- The billing module: src/modules/billing.
pub mod Types
pub mod Repository
pub mod Signature
pub mod Payload
pub mod Products
pub mod Webhook
pub mod Handler
