-- ===== src/Gateway.antt =====
-- The API gateway: backend/services/api-gateway.
pub mod Clients
pub mod Middleware
pub mod Handlers
pub mod Accepted
pub mod Guards
pub mod Journeys
pub mod Histories
mod Tests
pub mod Config
