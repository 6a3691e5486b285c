-- ===== src/Billing.antt =====
-- The billing service: backend/services/billing-service.
pub mod Model
pub mod Repo
pub mod Service
pub mod Handlers
pub mod Charges
pub mod Replies
mod Tests
pub mod Config
