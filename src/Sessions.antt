-- ===== src/Sessions.antt =====
-- The sessions service: backend/services/sessions-service.
pub mod Model
pub mod Repo
pub mod Cache
pub mod Table
pub mod Service
pub mod Handlers
pub mod Cases
pub mod Steps
pub mod Invariant
pub mod Starts
pub mod Stops
pub mod Fresh
pub mod History
pub mod OpenRows
pub mod Replies
pub mod CacheView
pub mod Mine
mod Tests
mod ReplyTests
pub mod Config
