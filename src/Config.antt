-- ===== src/Config.antt =====
-- The configuration of the services: backend/libs/config, and what their packages config share.
pub mod Model
pub mod Loader
pub mod Values
pub mod Keys
pub mod Leaves
pub mod Durations
mod Tests
