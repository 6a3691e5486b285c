-- ===== src/Telemetry.antt =====
-- The telemetry service: backend/services/telemetry-service.
pub mod Model
pub mod Repo
pub mod Service
pub mod Handlers
pub mod Energy
pub mod Replies
mod Tests
pub mod Config
