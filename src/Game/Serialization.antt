-- ===== src/Game/Serialization.antt =====
-- GameLogic/src/Serialization.cpp, message by message.
pub mod Commands
pub mod TimeSync
pub mod Acks
pub mod Parts
pub mod Combat
pub mod Entities
pub mod Snapshot
pub mod Counts
pub mod Payloads
pub mod Events
