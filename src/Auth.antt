-- ===== src/Auth.antt =====
-- The auth service: backend/services/auth-service.
pub mod Model
pub mod Users
pub mod Tokens
pub mod Service
pub mod Handlers
pub mod Accounts
pub mod Signups
pub mod Logins
pub mod Replies
pub mod Tests
pub mod Config
