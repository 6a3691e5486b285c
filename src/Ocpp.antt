-- ===== src/Ocpp.antt =====
-- The OCPP server: backend/services/ocpp-server.
pub mod Stations
pub mod Transactions
pub mod Messages
pub mod Frames
pub mod Model
pub mod Repo
pub mod Clients
pub mod Handlers
pub mod Processor
pub mod Bills
pub mod Parsing
pub mod Connectors
pub mod Snapshots
pub mod Calls
pub mod Wire
pub mod Linked
pub mod Connections
pub mod Buffers
pub mod Pumps
pub mod Orders
mod Tests
mod HubTests
mod LinkTests
pub mod Completed
mod CallTests
mod OrderTests
pub mod Config
