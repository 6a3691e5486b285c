-- ===== src/Csms.antt =====
-- The csms server (csms): its own websocket (internal/ws/simple.go).
pub mod Bytes
pub mod Conn
pub mod Reading
pub mod ClientFrames
pub mod Delivery
pub mod Panics
pub mod Frames
pub mod Writing
pub mod Upgrades
pub mod Offers
pub mod Negotiation
pub mod Calls
pub mod Replies
mod Tests
